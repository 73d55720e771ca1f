-- ===== src/Handler/Compat/Removing.antt =====
-- The delete token of a compatibility endpoint, and what the removal leaves in the cache.
use pastebin.Base.{
  ℕ, zero, suc, ◌≡◌, ◌≢◌, refl, ap, ◌∙◌, Bool, false, [], ◌∷◌, Option, none, some, arith, Bytes,
  bytes_eq_iff, bytes_eq_refl, find_where, find-delete_self,
}
use mathlib.Core.Path.{subst}
use mathlib.Core.Option.{some-injective}
use pastebin.Model.{Paste}
use pastebin.Database.State.{Db, Result, ok, err, statement, run_with}
use pastebin.Database.Pastes.Ops.{
  has_id, stamp, create_paste, get_paste_by_id, delete_paste_by_token, delete_row,
  increment_views_and_check_burn,
}
use pastebin.Cache.Driver.{Driver}
use pastebin.Handler.Cached.{Codec, World, cached, get_cached_paste}
use pastebin.Handler.Serve.{
  live, has_expired, query, shown, view_loaded, load_from, load_live_paste, get_paste,
}
use pastebin.Handler.Create.Input.{Library}
use pastebin.Handler.Create.Storing.{create-row}
use pastebin.Handler.Create.{Entropy, pick_id}
use pastebin.Base.Text.{hex}
use pastebin.Handler.Compat.{
  Wanted, internal_paste, created_as, with_picked, create_paste_internal, len_remove,
}

-- What is stored under an id, and removed by its token.
removed_row :
    (sha256 : Bytes → Bytes) (id token : Bytes) (d : Db) {p : Paste}
    → d.faults ≡ []
    → find_where (has_id id) d.pastes ≡ some p
    → p.delete_token_hash ≡ sha256 token
    → id ≢ []
    → token ≢ []
    → (len_remove sha256 id token d).0 ≡ none
unfolding len_remove delete_paste_by_token delete_row statement run_with
removed_row sha256 id token d {p} h stored hash some_id some_token =
    ground (arith, bytes_eq_iff id [], bytes_eq_iff token [], bytes_eq_refl (sha256 token))

removed_gone :
    (sha256 : Bytes → Bytes) (id token : Bytes) (d : Db)
    → (len_remove sha256 id token d).0 ≡ none
    → find_where (has_id id) (len_remove sha256 id token d).1.pastes ≡ none
unfolding len_remove delete_paste_by_token delete_row statement run_with
removed_gone sha256 id token d h = ground (arith, find-delete_self (has_id id) d.pastes)

create-faults :
    (now : ℕ) (p : Paste) (d : Db) → d.faults ≡ [] → (create_paste now p d).1.faults ≡ []
unfolding create_paste statement run_with
create-faults now p d h = ground arith

pick-faults :
    (ids : ℕ → Option Bytes) (left i : ℕ) (d : Db) → d.faults ≡ [] → (pick_id ids left i d).1 ≡ d
unfolding pick_id get_paste_by_id statement run_with
pick-faults ids zero i d h = refl
pick-faults ids (suc left) i d h = ground (arith, pick-faults ids left (suc i) d)

-- A pair of id and token that removes a paste of the tables.
record IsRemovable (sha256 : Bytes → Bytes) (id token : Bytes) (d : Db) : Type 0 where
  pub healthy : d.faults ≡ []
  pub paste : Paste
  pub stored : find_where (has_id id) d.pastes ≡ some paste
  pub hash : paste.delete_token_hash ≡ sha256 token
  pub some_id : id ≢ []
  pub some_token : token ≢ []

hex_some : (b : ℕ) (raw : Bytes) → hex (b ∷ raw) ≢ []
unfolding hex
hex_some b raw = λ h. cc h

module _ (lib : Library) (sha256 : Bytes → Bytes) where
  created-IsRemovable :
      (id token i t : Bytes) (p : Paste) (c : Result (Unit {0}) × Db)
      → c.1.faults ≡ []
      → (c.0 ≡ ok tt → find_where (has_id id) c.1.pastes ≡ some p)
      → p.delete_token_hash ≡ sha256 token
      → id ≢ []
      → token ≢ []
      → (created_as lib sha256 id token c).0 ≡ some (i, t)
      → IsRemovable sha256 i t (created_as lib sha256 id token c).1
  created-IsRemovable id token i t p (err e, d) healthy stored hash some_id some_token h =
      absurd (cc h)
  created-IsRemovable id token i t p (ok u, d) healthy stored hash some_id some_token h =
      let same = some-injective (id, token) (i, t) h in
      subst (λ x. IsRemovable sha256 x.0 x.1 d) same
        (record {
          healthy = healthy;
          paste = p;
          stored = stored refl;
          hash = hash;
          some_id = some_id;
          some_token = some_token;
        })

  picked-IsRemovable :
      (now : ℕ) (q : Wanted) (b : ℕ) (raw i t : Bytes) (o : Option Bytes × Db)
      → o.1.faults ≡ []
      → (with_picked lib sha256 now q (some (b ∷ raw)) o).0 ≡ some (i, t)
      → IsRemovable sha256 i t (with_picked lib sha256 now q (some (b ∷ raw)) o).1
  unfolding internal_paste stamp
  picked-IsRemovable now q b raw i t (none, d) healthy h = absurd (cc h)
  picked-IsRemovable now q b raw i t (some [], d) healthy h = absurd (cc h)
  picked-IsRemovable now q b raw i t (some (c ∷ cs), d) healthy h =
      let p = internal_paste lib sha256 q (c ∷ cs) (hex (b ∷ raw)) in
      created-IsRemovable (c ∷ cs) (hex (b ∷ raw)) i t (stamp now p) (create_paste now p d)
        (create-faults now p d healthy) (create-row now p d) refl (λ e. cc e) (hex_some b raw) h

  -- When the statements do not fail, the id and the token that a creation by a compatibility endpoint gives
  -- remove the paste: `LenRemove` answers 200 to them, and the paste is no longer in the table.
  pub len_remove-create_paste_internal :
      (now : ℕ) (q : Wanted) (entropy : Entropy) (b : ℕ) (raw id token : Bytes) (d : Db)
      → d.faults ≡ []
      → entropy.token ≡ some (b ∷ raw)
      → (create_paste_internal lib sha256 now q entropy d).0 ≡ some (id, token)
      → ((len_remove sha256 id token (create_paste_internal lib sha256 now q entropy d).1).0 ≡ none)
        × (find_where
              (has_id id)
              (len_remove sha256 id token
                (create_paste_internal lib sha256 now q entropy d).1).1.pastes
            ≡ none)
  unfolding create_paste_internal
  len_remove-create_paste_internal now q entropy b raw id token d healthy drawn h =
      let picked = pick_id entropy.ids 10 0 d in
      let m : IsRemovable sha256 id token (with_picked lib sha256 now q entropy.token picked).1 =
        rw drawn (
          picked-IsRemovable now q b raw id token picked
            (ap (λ x. x.faults) (pick-faults entropy.ids 10 0 d healthy) ∙ healthy)
            (rw drawn at h)) in
      let done =
        removed_row sha256 id token (with_picked lib sha256 now q entropy.token picked).1
          {p = m.paste} m.healthy m.stored m.hash m.some_id m.some_token in
      (
        done,
        removed_gone sha256 id token (with_picked lib sha256 now q entropy.token picked).1 done,
      )

module _ {S : Type 0} (driver : Driver S) (codec : Codec) where
  shown-content : (p : Paste) (r : Result (ℕ × Bool)) → (shown driver codec p r).content ≡ p.content
  shown-content p (ok (views, burned)) = refl
  shown-content p (err e) = refl

  cached-live :
      (now : ℕ) (id : Bytes) (o : Option Paste) (w : World S) {p : Paste}
      → o ≡ some p
      → has_expired now p ≡ false
      → (q : Paste) × ((view_loaded driver codec now id (load_from driver codec now id (o, w))).0
          ≡ live q)
        × (q.content ≡ p.content)
  cached-live now id o w {p} h fresh =
      let r = query (increment_views_and_check_burn now id) w in
      (shown driver codec p r.0, rw (h, fresh) refl, shown-content p r.0)

  -- A removal by `LenRemove`, whatever it answers, leaves the cache alone: a paste that the cache serves is still
  -- shown by `GetPaste` behind its removal, with its content, if it has not expired.
  pub get_paste-len_remove :
      (sha256 : Bytes → Bytes) (now : ℕ) (id token : Bytes) (w : World S) {p : Paste}
      → (get_cached_paste driver codec now id w).0 ≡ some p
      → has_expired now p ≡ false
      → (q : Paste) × ((get_paste driver codec now id
            (record w { db = (len_remove sha256 id token w.db).1 })).0
          ≡ live q)
        × (q.content ≡ p.content)
  unfolding get_paste load_live_paste get_cached_paste
  get_paste-len_remove sha256 now id token w {p} h fresh =
      cached-live now id (cached driver codec now id w.cache).0
        (record w {
          db = (len_remove sha256 id token w.db).1;
          cache = (cached driver codec now id w.cache).1;
        })
        {p = p} h fresh
