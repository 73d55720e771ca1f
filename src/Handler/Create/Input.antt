-- ===== src/Handler/Create/Input.antt =====
-- src/handler/paste.go: what `createFromRequest` and `extractToken` read of a request.
use pastebin.Base.{
  ℕ, Bool, true, false, not, ◌&&◌, List, [], ◌∷◌, Option, none, some, ◌⊎◌, inl, inr, ◌≡◌, Bytes,
  codes, bytes_eq, if◌then◌else◌, ◌==◌, take, drop,
}
use pastebin.Base.Int.{ℤ, pos}
use pastebin.Base.Text.{has_prefix, to_lower, parse_int}
use pastebin.Handler.Request.{read_limited}

-- The JSON body, and what the other kinds of body are read into.
pub record CreateRequest : Type 0 where
  pub content : Bytes
  pub title : Bytes
  pub language : Bytes
  pub visibility : Bytes
  pub expires_in : Bytes
  pub burn_after : ℤ
  pub content_type : Bytes

pub record Url : Type 0 where
  pub scheme : Bytes
  pub host : Bytes

-- What the handler takes from `encoding/json`, `net/http`, `encoding/base64` and `net/url`: what is encoded
-- in base64 is decoded again, and the sniffer never answers with no type.
pub record Library : Type 0 where
  pub decode_request : Bytes → Option CreateRequest
  pub decode_token : Bytes → Bytes
  pub detect_type : Bytes → Bytes
  pub encode64 : Bytes → Bytes
  pub decode64 : Bytes → Option Bytes
  pub parse_url : Bytes → Option Url
  pub decode64-encode64 : (b : Bytes) → decode64 (encode64 b) ≡ some b
  pub detect_type_some : (b : Bytes) → bytes_eq (detect_type b) [] ≡ false

-- The values of a form, "" for those that are missing.
pub record Form : Type 0 where
  pub content : Bytes
  pub title : Bytes
  pub language : Bytes
  pub visibility : Bytes
  pub expires_in : Bytes
  pub burn_after : Bytes

pub record Upload : Type 0 where
  pub filename : Bytes
  pub content : Bytes

-- A request: its headers, "" for those that are missing; its body; the form of the body, none where it does
-- not parse; the file "files" of a multipart body; and the base URL that `base` resolves for it.
pub record Request : Type 0 where
  pub content_type : Bytes
  pub authorization : Bytes
  pub x_api_token : Bytes
  pub x_token : Bytes
  pub x_delete_token : Bytes
  pub x_title : Bytes
  pub x_language : Bytes
  pub x_expires_in : Bytes
  pub query_token : Bytes
  pub form_owner_token : Bytes
  pub body : Bytes
  pub form : Option Form
  pub file : Option Upload
  pub base : Bytes

-- `m[ext]`, or "text"
abbrev pub language_of : Bytes → List (Bytes × Bytes) → Bytes
language_of ext [] = codes "text"
language_of ext ((e, name) ∷ rest) =
    let other = language_of ext rest in if bytes_eq ext e then name else other

abbrev pub languages : List (Bytes × Bytes)
languages =
    (codes "js", codes "javascript")
    ∷ (codes "ts", codes "typescript")
    ∷ (codes "jsx", codes "jsx")
    ∷ (codes "tsx", codes "tsx")
    ∷ (codes "py", codes "python")
    ∷ (codes "rb", codes "ruby")
    ∷ (codes "go", codes "go")
    ∷ (codes "rs", codes "rust")
    ∷ (codes "java", codes "java")
    ∷ (codes "c", codes "c")
    ∷ (codes "cpp", codes "cpp")
    ∷ (codes "cc", codes "cpp")
    ∷ (codes "h", codes "c")
    ∷ (codes "hpp", codes "cpp")
    ∷ (codes "cs", codes "csharp")
    ∷ (codes "php", codes "php")
    ∷ (codes "sh", codes "bash")
    ∷ (codes "bash", codes "bash")
    ∷ (codes "zsh", codes "bash")
    ∷ (codes "fish", codes "bash")
    ∷ (codes "ps1", codes "powershell")
    ∷ (codes "html", codes "html")
    ∷ (codes "htm", codes "html")
    ∷ (codes "css", codes "css")
    ∷ (codes "scss", codes "scss")
    ∷ (codes "sass", codes "sass")
    ∷ (codes "json", codes "json")
    ∷ (codes "yaml", codes "yaml")
    ∷ (codes "yml", codes "yaml")
    ∷ (codes "toml", codes "toml")
    ∷ (codes "xml", codes "xml")
    ∷ (codes "sql", codes "sql")
    ∷ (codes "md", codes "markdown")
    ∷ (codes "txt", codes "text")
    ∷ (codes "lua", codes "lua")
    ∷ (codes "r", codes "r")
    ∷ (codes "swift", codes "swift")
    ∷ (codes "kt", codes "kotlin")
    ∷ (codes "dart", codes "dart")
    ∷ (codes "ex", codes "elixir")
    ∷ (codes "exs", codes "elixir")
    ∷ (codes "erl", codes "erlang")
    ∷ (codes "hs", codes "haskell")
    ∷ (codes "clj", codes "clojure")
    ∷ (codes "scala", codes "scala")
    ∷ (codes "pl", codes "perl")
    ∷ (codes "ini", codes "ini")
    ∷ (codes "conf", codes "ini")
    ∷ (codes "env", codes "bash")
    ∷ (codes "diff", codes "diff")
    ∷ (codes "patch", codes "diff")
    ∷ (codes "dockerfile", codes "dockerfile")
    ∷ (codes "makefile", codes "makefile")
    ∷ (codes "mk", codes "makefile")
    ∷ []

-- What stands behind the last dot; the whole name if there is none.
unfoldable pub after_dot : Bytes → Bytes → Bytes
after_dot best [] = best
after_dot best (c ∷ s) = after_dot (if c == b'.' then s else best) s

unfoldable pub detect_language : Bytes → Bytes
unfolding to_lower after_dot
detect_language filename = let ext = to_lower filename in language_of (after_dot ext ext) languages

abbrev pub burn_value : Option ℤ → ℤ
burn_value none = pos 0
burn_value (some z) = z

abbrev pub of_form : Form → CreateRequest
of_form f = record {
  content = f.content;
  title = f.title;
  language = f.language;
  visibility = f.visibility;
  expires_in = f.expires_in;
  burn_after = burn_value (parse_int f.burn_after);
  content_type = [];
}

module _ (lib : Library) where
  abbrev pub or_bad_json : Option CreateRequest → ℕ ⊎ CreateRequest
  or_bad_json none = inl 400
  or_bad_json (some req) = inr req

  abbrev pub read_json : Bytes × Bool → ℕ ⊎ CreateRequest
  read_json (raw, true) = inl 413
  read_json (raw, false) = or_bad_json (lib.decode_request raw)

  -- An uploaded file; binary data is stored in base64.
  abbrev pub of_upload : Bytes → Form → Bytes × Bool → ℕ ⊎ CreateRequest
  of_upload filename f (raw, true) = inl 413
  of_upload filename f (raw, false) =
      let detected = lib.detect_type (take 512 raw) in
      let text = has_prefix detected (codes "text/") in
      inr (record (of_form f) {
        content = if text then raw else lib.encode64 raw;
        content_type = if text then [] else detected;
        title = filename;
        language = detect_language filename;
      })

  abbrev pub read_multipart : ℕ → Option Form → Option Upload → ℕ ⊎ CreateRequest
  read_multipart limit none file = inl 400
  read_multipart limit (some f) none = inr (of_form f)
  read_multipart limit (some f) (some u) = of_upload u.filename f (read_limited limit u.content)

  abbrev pub read_form : Option Form → ℕ ⊎ CreateRequest
  read_form none = inl 400
  read_form (some f) = inr (of_form f)

  abbrev pub read_raw : Request → Bytes × Bool → ℕ ⊎ CreateRequest
  read_raw r (raw, true) = inl 413
  read_raw r (raw, false) = inr (record {
    content = raw;
    title = r.x_title;
    language = r.x_language;
    visibility = [];
    expires_in = r.x_expires_in;
    burn_after = pos 0;
    content_type = [];
  })

  -- The switch on the content type; a number is the status of an error.
  unfoldable pub read_input : ℕ → Request → ℕ ⊎ CreateRequest
  read_input limit r =
      if has_prefix r.content_type (codes "application/json")
      then read_json (read_limited limit r.body)
      else if has_prefix r.content_type (codes "multipart/form-data")
      then read_multipart limit r.form r.file
      else if has_prefix r.content_type (codes "application/x-www-form-urlencoded")
      then read_form r.form
      else read_raw r (read_limited limit r.body)

  -- `auth[len("Bearer "):]`, or the bare token
  abbrev pub bearer : Bytes → Bytes
  bearer auth = if has_prefix auth (codes "Bearer ") then drop 7 auth else auth

  abbrev pub body_token : Request → Bytes → Bytes
  body_token r rest =
      if has_prefix r.content_type (codes "application/json")
      then lib.decode_token (take 1024 rest)
      else []

  abbrev pub form_token : Request → Bytes → Bytes
  form_token r rest =
      if has_prefix r.content_type (codes "application/x-www-form-urlencoded")
        && not (bytes_eq r.form_owner_token [])
      then r.form_owner_token
      else body_token r rest

  -- `extractToken`, with the part of the body that is not read yet.
  unfoldable pub extract_token : Request → Bytes → Bytes
  extract_token r rest =
      if not (bytes_eq r.authorization [])
      then bearer r.authorization
      else if not (bytes_eq r.x_api_token [])
      then r.x_api_token
      else if not (bytes_eq r.x_token [])
      then r.x_token
      else if not (bytes_eq r.x_delete_token [])
      then r.x_delete_token
      else if not (bytes_eq r.query_token [])
      then r.query_token
      else form_token r rest
