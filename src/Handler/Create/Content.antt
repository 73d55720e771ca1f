-- ===== src/Handler/Create/Content.antt =====
-- src/handler/paste.go: links and binary data in the content of a new paste.
use pastebin.Base.{
  ℕ, Bool, true, false, not, ◌&&◌, ◌||◌, [], ◌∷◌, Option, none, some, ◌⊎◌, inl, inr, Bytes, codes,
  bytes_eq, ◌==◌, if◌then◌else◌, take,
}
use pastebin.Base.Text.{has_prefix, contains_any, trim_space, trim_right}
use pastebin.Handler.Create.Input.{CreateRequest, Url, Library}

-- The content, its type and its language behind the treatment of links and binary data.
pub record Body : Type 0 where
  pub content : Bytes
  pub content_type : Bytes
  pub language : Bytes
  pub is_link : Bool

-- `"\n"` is the set of `strings.TrimRight`.
abbrev pub is_newline : ℕ → Bool
is_newline c = c == 10

module _ (lib : Library) where
  abbrev pub has_host : Option Url → Bool
  has_host none = false
  has_host (some u) =
      (bytes_eq u.scheme (codes "http") || bytes_eq u.scheme (codes "https"))
      && not (bytes_eq u.host [])

  unfoldable pub validate_link_target : Bytes → Bool
  validate_link_target target = has_host (lib.parse_url target)

  abbrev pub is_single_url : Bytes → Bool
  is_single_url t =
      if bytes_eq t []
      then false
      else if contains_any t (32 ∷ 9 ∷ 10 ∷ 13 ∷ [])
      then false
      else if not (has_prefix t (codes "http://")) && not (has_prefix t (codes "https://"))
      then false
      else validate_link_target t

  unfoldable pub is_single_url_content : Bytes → Bool
  unfolding validate_link_target
  is_single_url_content content = is_single_url (trim_space content)

  abbrev pub link_body : CreateRequest → ℕ ⊎ Body
  link_body req =
      let target = trim_space req.content in
      if validate_link_target target
      then inr (record { content = target; content_type = []; language = []; is_link = true })
      else inl 400

  -- Content with no type yet is sniffed, and binary data stored in base64: the content and its type.
  abbrev pub coded : Bytes → Bytes → Bytes × Bytes
  coded content detected =
      if not (bytes_eq content []) && not (has_prefix detected (codes "text/"))
      then (lib.encode64 content, detected)
      else (content, [])

  -- The newlines that end a text go.
  abbrev pub trimmed : Bytes × Bytes → Bytes × Bytes
  trimmed (content, content_type) =
      if bytes_eq content_type []
      then (trim_right is_newline content, content_type)
      else (content, content_type)

  unfoldable pub plain_content : Bytes → Bytes → Bytes × Bytes
  plain_content content content_type = trimmed (
      if bytes_eq content_type []
      then coded content (lib.detect_type (take 512 content))
      else (content, content_type))

  abbrev pub decodes : Option Bytes → Bool
  decodes none = false
  decodes (some b) = true

  abbrev pub is_binary : Bytes → Bool
  is_binary content_type =
      not (bytes_eq content_type []) && not (has_prefix content_type (codes "text/"))

  abbrev pub plain_body : CreateRequest → ℕ ⊎ Body
  plain_body req =
      if is_binary req.content_type && not (decodes (lib.decode64 req.content))
      then inl 400
      else let r = plain_content req.content req.content_type in
        inr (record { content = r.0; content_type = r.1; language = req.language; is_link = false })

  abbrev pub require_content : ℕ ⊎ Body → ℕ ⊎ Body
  require_content (inl status) = inl status
  require_content (inr b) = if bytes_eq (trim_space b.content) [] then inl 400 else inr b

  unfoldable pub prepare_body : CreateRequest → ℕ ⊎ Body
  unfolding is_single_url_content plain_content
  prepare_body req =
      require_content (if is_single_url_content req.content then link_body req else plain_body req)
