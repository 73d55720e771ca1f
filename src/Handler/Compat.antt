-- ===== src/Handler/Compat.antt =====
-- src/handler/compat.go: the creation, the reads and the deletes of the compatibility endpoints, up to the form
-- in which they render an answer. A code is the status of an error.
pub mod Forms
pub mod Counting
pub mod Removing
pub mod Uploads
use pastebin.Base.{
  ℕ, ◌+◌, ◌-◌, ◌/◌, ◌%◌, Bool, true, false, not, ◌&&◌, List, [], ◌∷◌, ◌++◌, Option, none, some,
  Bytes, codes, bytes_eq, ltb, ◌==◌, if◌then◌else◌, take,
}
use pastebin.Base.Text.{has_prefix, hex}
use pastebin.Model.{Paste}
use pastebin.Database.State.{Db, Result, ok, err}
use pastebin.Database.Pastes.Ops.{
  create_paste, get_paste_by_id, increment_views_and_check_burn, delete_paste,
  delete_paste_by_token,
}
use pastebin.Cache.Driver.{Driver}
use pastebin.Handler.Cached.{Codec, World}
use pastebin.Handler.Serve.{has_expired, query, after_view, shown}
use pastebin.Handler.Create.Input.{Library}
use pastebin.Handler.Create.Content.{coded}
use pastebin.Handler.Create.{Entropy, pick_id}

-- What a compatibility handler asks for.
pub record Wanted : Type 0 where
  pub title : Bytes
  pub content : Bytes
  pub lang : Bytes
  pub visibility : ℕ
  pub burn_after : ℕ
  pub expires_at : Option ℕ

module _ (lib : Library) (sha256 : Bytes → Bytes) where
  unfoldable pub internal_paste : Wanted → Bytes → Bytes → Paste
  internal_paste q id token =
      let r = coded lib q.content (lib.detect_type (take 512 q.content)) in
      record {
        id = id;
        title = if bytes_eq q.title [] then codes "Untitled" else q.title;
        content = r.0;
        content_type = r.1;
        language = if bytes_eq q.lang [] then codes "text" else q.lang;
        visibility = q.visibility;
        is_link = false;
        expires_at = q.expires_at;
        burn_after = q.burn_after;
        delete_token_hash = sha256 token;
        views = 0;
        created_at = 0;
        updated_at = 0;
      }

  abbrev pub created_as : Bytes → Bytes → Result (Unit {0}) × Db → Option (Bytes × Bytes) × Db
  created_as id token (err e, d) = (none, d)
  created_as id token (ok u, d) = (some (id, token), d)

  abbrev pub with_raw : ℕ → Wanted → Bytes → Option Bytes → Db → Option (Bytes × Bytes) × Db
  with_raw now q id none d = (none, d)
  with_raw now q id (some raw) d =
      created_as id (hex raw) (create_paste now (internal_paste q id (hex raw)) d)

  abbrev pub with_picked :
      ℕ → Wanted → Option Bytes → Option Bytes × Db → Option (Bytes × Bytes) × Db
  with_picked now q draw (none, d) = (none, d)
  with_picked now q draw (some [], d) = (none, d)
  with_picked now q draw (some (c ∷ cs), d) = with_raw now q (c ∷ cs) draw d

  -- The id and the delete token; none is an error.
  unfoldable pub create_paste_internal : ℕ → Wanted → Entropy → Db → Option (Bytes × Bytes) × Db
  unfolding internal_paste hex pick_id
  create_paste_internal now q entropy d =
      with_picked now q entropy.token (pick_id entropy.ids 10 0 d)

-- A removal: none for its success.
abbrev pub removal : Result (Unit {0}) × Db → Option ℕ × Db
removal (err e, d) = (some 404, d)
removal (ok u, d) = (none, d)

module _ (sha256 : Bytes → Bytes) where
  unfoldable pub len_remove : Bytes → Bytes → Db → Option ℕ × Db
  len_remove id token d =
      if bytes_eq id []
      then (some 400, d)
      else if bytes_eq token []
      then (some 400, d)
      else removal (delete_paste_by_token id (sha256 token) d)

  unfoldable pub pastebin_delete : Bytes → Bytes → Db → Option ℕ × Db
  pastebin_delete id token d =
      if bytes_eq id []
      then (some 400, d)
      else if bytes_eq token []
      then (some 403, d)
      else if bytes_eq token (codes "ANONYMOUS")
      then (some 403, d)
      else removal (delete_paste_by_token id (sha256 token) d)

-- A paste that is read, its withheld body, or the status of an error.
pub data Read : Type 0 where
  found : Paste → Read
  one_use : Bytes → Read
  missing : ℕ → Read

-- The lookup that the reads share; an expired paste is deleted.
abbrev pub found_live : ℕ → Bytes → Result (Option Paste) × Db → Read × Db
found_live now id (err e, d) = (missing 404, d)
found_live now id (ok none, d) = (missing 404, d)
found_live now id (ok (some p), d) =
    if has_expired now p then (missing 404, (delete_paste id d).1) else (found p, d)

unfoldable pub load_compat : ℕ → Bytes → Db → Read × Db
unfolding has_expired
load_compat now id d = found_live now id (get_paste_by_id id d)

-- `StikkedJSON`: the paste as it is stored.
unfoldable pub stikked_json : ℕ → Bytes → Db → Read × Db
unfolding load_compat
stikked_json now id d = load_compat now id d

module _ {S : Type 0} (driver : Driver S) (codec : Codec) where
  -- `PastebinRaw` and `HastebinGet`: the content, and a view counted, whatever became of the count.
  abbrev pub raw_found : ℕ → Bytes → World S → Read → Read × World S
  raw_found now id w (missing status) = (missing status, w)
  raw_found now id w (one_use i) = (one_use i, w)
  raw_found now id w (found p) =
      (found p, after_view driver codec id (query (increment_views_and_check_burn now id) w))

  unfoldable pub hastebin_get : ℕ → Bytes → World S → Read × World S
  unfolding load_compat
  hastebin_get now id w =
      let r = load_compat now id w.db in raw_found now id (record w { db = r.1 }) r.0

  unfoldable pub pastebin_raw : ℕ → Bytes → World S → Read × World S
  unfolding hastebin_get
  pastebin_raw now id w = if bytes_eq id [] then (missing 400, w) else hastebin_get now id w

  -- `LenGet`, and whether the caller asks to open a paste of one use.
  abbrev pub len_found : ℕ → Bytes → Bool → World S → Read → Read × World S
  len_found now id opens w (missing status) = (missing status, w)
  len_found now id opens w (one_use i) = (one_use i, w)
  len_found now id opens w (found p) =
      let r = query (increment_views_and_check_burn now id) w in
      if (p.burn_after == 1) && not opens
      then (one_use p.id, w)
      else (found (shown driver codec p r.0), after_view driver codec id r)

  unfoldable pub len_get : ℕ → Bytes → Bool → World S → Read × World S
  unfolding load_compat
  len_get now id opens w =
      let r = load_compat now id w.db in
      if bytes_eq id []
      then (missing 400, w)
      else len_found now id opens (record w { db = r.1 }) r.0
