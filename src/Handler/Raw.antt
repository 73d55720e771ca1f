-- ===== src/Handler/Raw.antt =====
-- src/handler/paste.go: `GetRawPaste`, the content of a paste as it was given.
pub mod Uploads
pub mod Inert
use pastebin.Base.{
  ℕ, Bool, true, false, not, ◌&&◌, ◌||◌, List, [], ◌∷◌, Option, none, some, Bytes, codes, bytes_eq,
  if◌then◌else◌, take,
}
use pastebin.Model.{Paste}
use pastebin.Database.State.{Result, ok, err}
use pastebin.Database.Pastes.Ops.{increment_views_and_check_burn}
use pastebin.Cache.Driver.{Driver}
use pastebin.Handler.Codes.{Code}
use pastebin.Handler.Cached.{Codec, World}
use pastebin.Handler.Serve.{Loaded, live, refused, query, after_view, load_live_paste}
use pastebin.Handler.Create.Input.{Library}
use pastebin.Handler.Create.Content.{is_binary}

-- `ParseMediaType` and `FormatMediaType` of the package `mime`.
pub record Mime : Type 0 where
  pub parse_media_type : Bytes → Option (Bytes × List (Bytes × Bytes))
  pub format_media_type : Bytes → List (Bytes × Bytes) → Bytes

-- The body, the header Content-Type, and whether the browser is told to download it.
pub record RawReply : Type 0 where
  pub body : Bytes
  pub content_type : Bytes
  pub attachment : Bool

abbrev pub member : Bytes → List Bytes → Bool
member s [] = false
member s (x ∷ xs) = bytes_eq s x || member s xs

-- `activeContentTypes`
abbrev pub active_content_types : List Bytes
active_content_types =
    codes "text/html"
    ∷ codes "application/xhtml+xml"
    ∷ codes "image/svg+xml"
    ∷ codes "text/xml"
    ∷ codes "application/xml"
    ∷ codes "application/javascript"
    ∷ codes "text/javascript"
    ∷ []

unfoldable pub is_active : Bytes → Bool
is_active base_type = member base_type active_content_types

abbrev pub decoded_or : Bytes → Option Bytes → Bytes
decoded_or content none = content
decoded_or content (some b) = b

module _ (lib : Library) where
  -- Binary data is decoded from base64.
  unfoldable pub raw_body : Bytes → Bytes → Bytes
  raw_body content content_type =
      if is_binary lib content_type then decoded_or content (lib.decode64 content) else content

  -- The type of the paste, or the one that is sniffed.
  abbrev pub detected_type : Bytes → Bytes → Bytes
  detected_type content_type body =
      if bytes_eq content_type [] then lib.detect_type (take 512 body) else content_type

module _ (lib : Library) (mime : Mime) where
  abbrev pub reply_of : Bytes → Option (Bytes × List (Bytes × Bytes)) → RawReply
  reply_of body none = record {
    body = body;
    content_type = codes "application/octet-stream";
    attachment = true;
  }
  reply_of body (some (base_type, params)) =
      let served = mime.format_media_type base_type params in
      record {
        body = body;
        content_type = if bytes_eq served [] then base_type else served;
        attachment = is_active base_type;
      }

  unfoldable pub raw_reply : Paste → RawReply
  unfolding raw_body is_active
  raw_reply p =
      let body = raw_body lib p.content p.content_type in
      reply_of body (mime.parse_media_type (detected_type lib p.content_type body))

  pub data RawAnswer : Type 0 where
    raw : RawReply → RawAnswer
    failed : Code → RawAnswer

  module _ {S : Type 0} (driver : Driver S) (codec : Codec) where
    abbrev pub raw_loaded : ℕ → Bytes → Loaded × World S → RawAnswer × World S
    raw_loaded now id (refused code, w) = (failed code, w)
    raw_loaded now id (live p, w) = (
      raw (raw_reply p),
      after_view driver codec id (query (increment_views_and_check_burn now id) w),
    )

    unfoldable pub get_raw_paste : ℕ → Bytes → World S → RawAnswer × World S
    unfolding raw_reply
    get_raw_paste now id w = raw_loaded now id (load_live_paste driver codec now id w)
