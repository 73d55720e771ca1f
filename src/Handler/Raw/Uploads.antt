-- ===== src/Handler/Raw/Uploads.antt =====
-- A file that is uploaded and read again.
use mathlib.Core.Sum.{inr-injective}
use pastebin.Base.{
  ℕ, ◌≡◌, ◌≢◌, refl, sym, ap, ◌∙◌, true, false, [], none, some, inl, inr, arith, Bytes, codes,
  bytes_eq, take, Bool-cases, Option-cases, find_where,
}
use pastebin.Base.Text.{has_prefix, trim_space}
use pastebin.Model.{Paste, CreateResponse}
use pastebin.Database.State.{Db}
use pastebin.Database.Pastes.Ops.{has_id}
use pastebin.Handler.Request.{read_limited}
use pastebin.Handler.Create.Input.{
  CreateRequest, Library, Form, Upload, Request, of_form, detect_language, read_input,
}
use pastebin.Handler.Create.Content.{
  Body, is_single_url_content, plain_content, require_content, prepare_body,
}
use pastebin.Handler.Create.Storing.{create_from_request-IsStored}
use pastebin.Handler.Create.{Entropy, made, create_from_request}
use pastebin.Handler.Raw.{raw_body}

module _ (lib : Library) where
  required-same : (b b' : Body) → require_content lib (inr b) ≡ inr b' → b ≡ b'
  required-same b b' h = elim (Bool-cases (bytes_eq (trim_space b.content) [])) [
    | inl e ↦ absurd (cc (rw e at h))
    | inr e ↦ inr-injective b b' (rw e at h)
  ]

  plain_content-typed :
      (c content_type : Bytes)
      → bytes_eq content_type [] ≡ false
      → plain_content lib c content_type ≡ (c, content_type)
  unfolding plain_content
  plain_content-typed c content_type typed = rw (typed, typed) refl

  prepared-typed :
      (req : CreateRequest) {b : Body}
      → bytes_eq req.content_type [] ≡ false
      → lib.decode64 req.content ≢ none
      → is_single_url_content lib req.content ≡ false
      → prepare_body lib req ≡ inr b
      → (req.content ≡ b.content) × (req.content_type ≡ b.content_type)
  unfolding prepare_body
  prepared-typed req {b} typed coded no_link h = elim (Option-cases (lib.decode64 req.content)) [
    | inl e ↦ absurd (coded e)
    | inr (raw_bytes, e) ↦
        let plain : Body = record {
          content = req.content;
          content_type = req.content_type;
          language = req.language;
          is_link = false;
        } in
        let same : plain ≡ b =
          required-same plain b
            (ground (arith, plain_content-typed req.content req.content_type typed)) in
        (ap (λ x. x.content) same, ap (λ x. x.content_type) same)
  ]

  abbrev upload_request : Form → Upload → CreateRequest
  upload_request f u = record (of_form f) {
    content = lib.encode64 u.content;
    content_type = lib.detect_type (take 512 u.content);
    title = u.filename;
    language = detect_language u.filename;
  }

  upload-read :
      (limit : ℕ) (r : Request) {f : Form} {u : Upload}
      → has_prefix r.content_type (codes "application/json") ≡ false
      → has_prefix r.content_type (codes "multipart/form-data") ≡ true
      → r.form ≡ some f
      → r.file ≡ some u
      → read_limited limit u.content ≡ (u.content, false)
      → has_prefix (lib.detect_type (take 512 u.content)) (codes "text/") ≡ false
      → read_input lib limit r ≡ inr (upload_request f u)
  unfolding read_input
  upload-read limit r {f} {u} no_json multipart form file fits binary =
      rw (no_json, multipart, form, file, fits, binary) refl

  -- A file that a multipart request uploads, that fits the limit and is no text by the sniffer, and whose base64
  -- is no URL: when the answer is a paste, whichever statements fail, the paste of that answer is in the table,
  -- and `GetRawPaste` makes of it the bytes of the file.
  pub raw_body-of_upload :
      (sha256 : Bytes → Bytes) (limit now : ℕ) (r : Request) (entropy : Entropy) (d : Db) {f : Form}
      {u : Upload} {resp : CreateResponse}
      → has_prefix r.content_type (codes "application/json") ≡ false
      → has_prefix r.content_type (codes "multipart/form-data") ≡ true
      → r.form ≡ some f
      → r.file ≡ some u
      → read_limited limit u.content ≡ (u.content, false)
      → has_prefix (lib.detect_type (take 512 u.content)) (codes "text/") ≡ false
      → is_single_url_content lib (lib.encode64 u.content) ≡ false
      → (create_from_request lib sha256 limit now r entropy d).0 ≡ made resp
      → (p : Paste) × (find_where
            (has_id resp.id)
            (create_from_request lib sha256 limit now r entropy d).1.pastes
          ≡ some p)
        × (raw_body lib p.content p.content_type ≡ u.content)
  unfolding raw_body
  raw_body-of_upload sha256 limit now r entropy d {f} {u} {resp} no_json multipart form file fits
        binary no_link h =
      let s = create_from_request-IsStored lib sha256 limit now r entropy d {resp = resp} h in
      let m = s.held in
      let detected = lib.detect_type (take 512 u.content) in
      let typed = lib.detect_type_some (take 512 u.content) in
      let read = upload-read limit r {f = f} {u = u} no_json multipart form file fits binary in
      let req : m.req ≡ upload_request f u =
        inr-injective m.req (upload_request f u) (sym m.read ∙ read) in
      let prepared = ap (prepare_body lib) (sym req) ∙ m.prepared in
      let (content, content_type) =
        prepared-typed (upload_request f u) {b = m.body} typed
          (λ none_left. absurd (cc (lib.decode64-encode64 u.content, none_left))) no_link
          prepared in
      (
        s.paste,
        s.found,
        rw
            (
              m.content,
              ← content,
              m.content_type,
              ← content_type,
              typed,
              binary,
              lib.decode64-encode64 u.content,
            )
            refl,
      )
