-- ===== src/Server/Request.antt =====
-- What the middleware of src/server/server.go reads of an HTTP request.
use pastebin.Base.{Bool, true, false, Option, [], ◌∷◌, Bytes, bytes_eq}
use pastebin.Base.Text.{to_lower}

-- A header that is missing is the empty text; `form` is the field csrf_token of the body. `peer` is the value
-- that realIPMiddleware keeps in the context.
pub record Request : Type 0 where
  pub method : Bytes
  pub path : Bytes
  pub host : Bytes
  pub tls : Bool
  pub header : Bytes → Bytes
  pub cookie : Bytes → Option Bytes
  pub form : Bytes
  pub remote_addr : Bytes
  pub peer : Option Bytes

-- `strings.EqualFold`, for ASCII
unfoldable pub equal_fold : Bytes → Bytes → Bool
unfolding to_lower bytes_eq
equal_fold a b = bytes_eq (to_lower a) (to_lower b)

abbrev pub is_empty : Bytes → Bool
is_empty [] = true
is_empty (c ∷ s) = false

abbrev pub first_text : Bytes → Bytes → Bytes
first_text [] b = b
first_text (c ∷ a) b = c ∷ a
