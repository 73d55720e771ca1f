-- ===== src/Handler/Codes.antt =====
-- The canonical error codes and their HTTP statuses.
use pastebin.Base.{ℕ, ◌≡◌, ◌⊎◌, Bytes, arith, ◌==◌, if◌then◌else◌}

-- The codes that the two switches name; `other` is any further text.
pub data Code : Type 0 where
  bad_request validation_failed unauthorized token_expired token_invalid : Code
  forbidden account_locked csrf_failed not_found method_not_allowed : Code
  conflict gone payload_too_large rate_limited maintenance server_error : Code
  other : Bytes → Code

unfoldable pub http_err_code : ℕ → Code
http_err_code status =
    if status == 400
    then bad_request
    else if status == 401
    then unauthorized
    else if status == 403
    then forbidden
    else if status == 404
    then not_found
    else if status == 405
    then method_not_allowed
    else if status == 409
    then conflict
    else if status == 410
    then gone
    else if status == 413
    then payload_too_large
    else if status == 429
    then rate_limited
    else if status == 503
    then maintenance
    else server_error

unfoldable pub map_api_error_code_to_http_status : Code → ℕ
map_api_error_code_to_http_status bad_request = 400
map_api_error_code_to_http_status validation_failed = 400
map_api_error_code_to_http_status unauthorized = 401
map_api_error_code_to_http_status token_expired = 401
map_api_error_code_to_http_status token_invalid = 401
map_api_error_code_to_http_status forbidden = 403
map_api_error_code_to_http_status account_locked = 403
map_api_error_code_to_http_status csrf_failed = 403
map_api_error_code_to_http_status not_found = 404
map_api_error_code_to_http_status method_not_allowed = 405
map_api_error_code_to_http_status conflict = 409
map_api_error_code_to_http_status gone = 410
map_api_error_code_to_http_status payload_too_large = 413
map_api_error_code_to_http_status rate_limited = 429
map_api_error_code_to_http_status maintenance = 503
map_api_error_code_to_http_status server_error = 500
map_api_error_code_to_http_status (other text) = 500

-- A status sent through its code is the status that reaches the client, or 500 for a status with no
-- code of its own.
pub status-code :
    (status : ℕ)
    → (map_api_error_code_to_http_status (http_err_code status) ≡ status)
      ⊎ ((http_err_code status ≡ server_error)
          × (map_api_error_code_to_http_status (http_err_code status) ≡ 500))
unfolding http_err_code map_api_error_code_to_http_status
status-code status = ground arith
