-- ===== src/Handler/Compat/Uploads.antt =====
-- src/handler/compat.go: DpasteCreate, RootUpload with curlRespond, TermbinServe, and the listings LenList and
-- pastebinList, up to the texts of their answers.
use pastebin.Base.{
  ℕ, ◌+◌, ◌*◌, ◌%◌, ◌^◌, ◌<◌, ◌≡◌, refl, arith, length-take, Bool, true, false, not, ◌&&◌, ◌||◌,
  List, [], ◌∷◌, ◌++◌, Option, none, some, ◌⊎◌, inl, inr, Bytes, codes, bytes_eq, if◌then◌else◌,
  ltb, ◌==◌, take, length,
}
use pastebin.Base.Int.{ℤ, pos, negsuc}
use pastebin.Base.Text.{trim_space, trim_right, parse_int}
use pastebin.Model.{visibility_public, PasteListItem}
use pastebin.Database.State.{Db, Result}
use pastebin.Database.Pastes.Ops.{get_public_pastes}
use pastebin.Handler.Request.{hour, from_now}
use pastebin.Handler.Create.Input.{Library}
use pastebin.Handler.Create.{Entropy}
use pastebin.Handler.Compat.{Wanted, create_paste_internal}
use pastebin.Handler.Compat.Forms.{times_unit}

-- The first of the texts that is not empty.
abbrev pub or_else : Bytes → Bytes → Bytes
or_else a b = if bytes_eq a [] then b else a

abbrev pub plain_wanted : Bytes → Bytes → Option ℕ → Wanted
plain_wanted content lang expires_at = record {
  title = [];
  content = content;
  lang = lang;
  visibility = visibility_public;
  burn_after = 0;
  expires_at = expires_at;
}

abbrev pub dpaste_wanted : ℕ → Bytes → Bytes → Bytes → Bytes → Bytes → ℕ ⊎ Wanted
dpaste_wanted now content lexer syntax filename expires =
    if bytes_eq (trim_space content) []
    then inl 400
    else inr (
        plain_wanted content (or_else lexer (or_else syntax (or_else filename (codes "text"))))
          (from_now now (times_unit (24 * hour) (parse_int expires))))

abbrev pub curl_wanted : ℕ → Bytes → Bytes → ℕ ⊎ Wanted
curl_wanted now content expires =
    if bytes_eq (trim_space content) []
    then inl 400
    else inr
        (plain_wanted content (codes "text") (from_now now (times_unit hour (parse_int expires))))

-- What RootUpload finds in the form.
pub record RootForm : Type 0 where
  pub too_large : Bool
  pub file : Option Bytes
  pub file_too_large : Bool
  pub sprunge : Bytes
  pub ix : Bytes
  pub expires : Bytes

-- A refusal, a paste with or without the token in the answer, or the native handler.
pub data RootUpload : Type 0 where
  refused : ℕ → RootUpload
  upload : Bool → Wanted → RootUpload
  native : RootUpload

abbrev pub as_upload : Bool → ℕ ⊎ Wanted → RootUpload
as_upload token (inl status) = refused status
as_upload token (inr q) = upload token q

abbrev pub text_upload : ℕ → RootForm → RootUpload
text_upload now f =
    if f.file_too_large
    then refused 413
    else if not (bytes_eq (trim_space f.sprunge) [])
    then as_upload false (curl_wanted now f.sprunge [])
    else if not (bytes_eq (trim_space f.ix) [])
    then as_upload false (curl_wanted now f.ix [])
    else native

-- `limit` is effectiveReadLimit.
unfoldable pub root_upload : ℕ → ℕ → RootForm → RootUpload
root_upload now limit f = if f.too_large then refused 413 else elim f.file [
  | none ↦ text_upload now f
  | some body ↦ as_upload true (curl_wanted now (take limit body) f.expires)
]

-- The bytes that io.LimitReader lets through: `limit + 1` on 64 bits, none below 1.
abbrev pub read_limit : ℕ → ℕ
read_limit max_size = let n = (max_size + 1) % 2 ^ 64 in if ltb n (2 ^ 63) then n else 0

pub data Termbin : Type 0 where
  read_failed too_large no_content not_created : Termbin
  link : Bytes → Termbin

abbrev pub line_end : ℕ → Bool
line_end c = (c == 13) || (c == 10)

abbrev pub linked : Bytes → Option (Bytes × Bytes) × Db → Termbin × Db
linked base (none, d) = (not_created, d)
linked base (some (id, token), d) =
    (link (trim_right (λ c. c == b'/') base ++ (codes "/" ++ (id ++ 10 ∷ []))), d)

if_none : (fails : Bool) (a b : Termbin × Db) → (if fails && false then a else b) ≡ b
if_none true a b = refl
if_none false a b = refl

module _ (lib : Library) (sha256 : Bytes → Bytes) where
  -- `sent` is what the client sends before it stops or the deadline passes; `fails` is whether the read ended with an
  -- error.
  unfoldable pub termbin_serve : ℕ → Bytes → ℕ → Bytes → Bool → Entropy → Db → Termbin × Db
  unfolding create_paste_internal
  termbin_serve now base max_size sent fails entropy d =
      let data_read = take (read_limit max_size) sent in
      let content = trim_right line_end data_read in
      if fails && (length data_read == 0)
      then (read_failed, d)
      else if ltb max_size (length data_read)
      then (too_large, d)
      else if bytes_eq (trim_space content) []
      then (no_content, d)
      else linked base (
          create_paste_internal lib sha256 now (plain_wanted content (codes "text") none) entropy d)

-- What is longer than the limit is refused, and nothing is stored.
pub termbin_serve_bounded :
    (lib : Library) (sha256 : Bytes → Bytes) (now : ℕ) (base : Bytes) (max_size : ℕ) (sent : Bytes)
    (fails : Bool) (entropy : Entropy) (d : Db)
    → max_size + 1 < 2 ^ 63
    → max_size < length sent
    → termbin_serve lib sha256 now base max_size sent fails entropy d ≡ (too_large, d)
unfolding termbin_serve
termbin_serve_bounded lib sha256 now base max_size sent fails entropy d small long =
    let limit : read_limit max_size ≡ max_size + 1 = ground arith in
    let read : length (take (read_limit max_size) sent) ≡ max_size + 1 =
      omega (arith, limit, length-take {0} (read_limit max_size) sent) in
    let some_read : (length (take (read_limit max_size) sent) == 0) ≡ false =
      ground (arith, read) in
    let over : ltb max_size (length (take (read_limit max_size) sent)) ≡ true =
      ground (arith, read) in
    rw (some_read, over) (if_none fails (read_failed, d) (too_large, d))

-- A page and a limit are the numbers that `Atoi` leaves when its error is dropped: 0 for no number, the bound of 64
-- bits for one that is out of range.
abbrev pub at_least_zero : ℤ → ℕ
at_least_zero (pos n) = n
at_least_zero (negsuc n) = 0

abbrev pub len_page : ℤ → ℕ
len_page page = let n = at_least_zero page in if ltb n 1 then 1 else n

abbrev pub len_limit : ℤ → ℕ
len_limit size = let n = at_least_zero size in if ltb n 1 || ltb 100 n then 20 else n

abbrev pub pastebin_limit : ℤ → ℕ
pastebin_limit size =
    let n = at_least_zero size in if ltb n 1 then 50 else if ltb 1000 n then 1000 else n

unfoldable pub len_list : ℕ → ℤ → ℤ → Db → Result (List PasteListItem × ℕ) × Db
unfolding get_public_pastes
len_list now page size d = get_public_pastes now (len_page page) (len_limit size) d

unfoldable pub pastebin_list : ℕ → ℤ → Db → Result (List PasteListItem × ℕ) × Db
unfolding get_public_pastes
pastebin_list now size d = get_public_pastes now 1 (pastebin_limit size) d
