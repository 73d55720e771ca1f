-- ===== src/Handler/Raw/Inert.antt =====
-- What a browser is given by `GetRawPaste`.
use pastebin.Base.{
  ℕ, ◌≡◌, ◌≢◌, refl, false, List, [], Option, none, some, inl, inr, Bytes, bytes_eq, bytes_eq_iff,
  Bool-cases,
}
use pastebin.Model.{Paste}
use pastebin.Cache.Driver.{Driver}
use pastebin.Handler.Cached.{Codec, World}
use pastebin.Handler.Serve.{Loaded, live, refused, view_loaded, load_live_paste, get_paste}
use pastebin.Handler.Create.Input.{Library}
use pastebin.Handler.Raw.{
  Mime, is_active, reply_of, raw_body, detected_type, raw_reply, raw_loaded, get_raw_paste,
}

module _ (lib : Library) (mime : Mime) where
  reply-inert :
      (body : Bytes) (o : Option (Bytes × List (Bytes × Bytes)))
      → ((base : Bytes) (params : List (Bytes × Bytes))
          → o ≡ some (base, params)
          → (params' : List (Bytes × Bytes)) × (mime.parse_media_type
                (reply_of lib mime body o).content_type
              ≡ some (base, params')))
      → (reply_of lib mime body o).attachment ≡ false
      → (base : Bytes) × (params : List (Bytes × Bytes)) × (mime.parse_media_type
            (reply_of lib mime body o).content_type
          ≡ some (base, params))
        × (is_active base ≡ false)
  reply-inert body none back h = absurd (cc h)
  reply-inert body (some (base, params)) back h =
      let (params', e) = back base params refl in (base, params', e, h)

  served-back :
      (body detected : Bytes)
      → ((s base : Bytes) (params : List (Bytes × Bytes))
          → mime.parse_media_type s ≡ some (base, params)
          → mime.format_media_type base params ≢ []
          → mime.parse_media_type (mime.format_media_type base params) ≡ some (base, params))
      → ((s base : Bytes) (params : List (Bytes × Bytes))
          → mime.parse_media_type s ≡ some (base, params)
          → mime.parse_media_type base ≡ some (base, []))
      → (base : Bytes) (params : List (Bytes × Bytes))
      → mime.parse_media_type detected ≡ some (base, params)
      → (params' : List (Bytes × Bytes)) × (mime.parse_media_type
            (reply_of lib mime body (mime.parse_media_type detected)).content_type
          ≡ some (base, params'))
  served-back body detected whole bare base params e =
      elim (Bool-cases (bytes_eq (mime.format_media_type base params) [])) [
        | inl empty ↦ rw (e, empty) ([], bare detected base params e)
        | inr full ↦
            rw (e, full)
              (
                params,
                whole detected base params e (λ none_left. absurd (
                    cc (full, (bytes_eq_iff (mime.format_media_type base params) []).1 none_left))),
              )
      ]

  -- When what `FormatMediaType` makes of a parsed media type parses to it again, and so does the bare base type:
  -- a body of `GetRawPaste` that the browser is not told to download has a Content-Type that parses, to a type
  -- that is none of the active ones.
  pub raw_reply_inert :
      (p : Paste)
      → ((s base : Bytes) (params : List (Bytes × Bytes))
          → mime.parse_media_type s ≡ some (base, params)
          → mime.format_media_type base params ≢ []
          → mime.parse_media_type (mime.format_media_type base params) ≡ some (base, params))
      → ((s base : Bytes) (params : List (Bytes × Bytes))
          → mime.parse_media_type s ≡ some (base, params)
          → mime.parse_media_type base ≡ some (base, []))
      → (raw_reply lib mime p).attachment ≡ false
      → (base : Bytes) × (params : List (Bytes × Bytes)) × (mime.parse_media_type
            (raw_reply lib mime p).content_type
          ≡ some (base, params))
        × (is_active base ≡ false)
  unfolding raw_reply
  raw_reply_inert p whole bare h =
      let body = raw_body lib p.content p.content_type in
      let detected = detected_type lib p.content_type body in
      reply-inert body (mime.parse_media_type detected) (served-back body detected whole bare) h

  module _ {S : Type 0} (driver : Driver S) (codec : Codec) where
    loaded-same :
        (now : ℕ) (id : Bytes) (l : Loaded × World S)
        → (raw_loaded lib mime driver codec now id l).1 ≡ (view_loaded driver codec now id l).1
    loaded-same now id (refused code, w) = refl
    loaded-same now id (live p, w) = refl

    -- The raw reading of a paste leaves the tables and the cache exactly as the reading by `GetPaste` does: it
    -- counts a view, burns the paste at its threshold, and drops an expired one, in the same way.
    pub get_raw_paste-get_paste :
        (now : ℕ) (id : Bytes) (w : World S)
        → (get_raw_paste lib mime driver codec now id w).1 ≡ (get_paste driver codec now id w).1
    unfolding get_raw_paste get_paste
    get_raw_paste-get_paste now id w = loaded-same now id (load_live_paste driver codec now id w)
