-- ===== src/Tests/Pastes.antt =====
-- Tests of the paste tables.
use pastebin.Base.{
  ◌≡◌, refl, List, [], ◌∷◌, none, arith, codes, find_where, bytes_eq, inl, inr, true, false,
}
use pastebin.Database.State.{ok, err, paste_not_found}
use pastebin.Database.Pastes.Ops.{has_id, increment_views_and_check_burn}
use pastebin.Database.Pastes.Burn.{serve, countdown, burn_after_reading}
use pastebin.Database.Pastes.Rows.{IsValid}
use pastebin.Database.Pastes.Calls.{Call, create, view, purge, run_calls, run_calls-IsValid}
use pastebin.Tests.Data.{id_a, burning, paste_of, db}

-- The second statement of the transaction fails.

burn_after_reading_example :
    ((serve (40 ∷ 41 ∷ []) id_a db).0 ≡ ok (1, false) ∷ ok (2, true) ∷ [])
    × (find_where (has_id id_a) (serve (40 ∷ 41 ∷ []) id_a db).1.pastes ≡ none)
    × ((increment_views_and_check_burn 42 id_a (serve (40 ∷ 41 ∷ []) id_a db).1).0
        ≡ err paste_not_found)
unfolding countdown find_where bytes_eq
burn_after_reading_example =
    burn_after_reading id_a (40 ∷ 41 ∷ []) 42 db {p = burning} refl refl (omega arith) refl

IsValid-db : IsValid db.pastes
unfolding find_where bytes_eq
IsValid-db = record {
  keyed = (refl, (refl, (refl, tt)));
  live = (inr (omega arith), (inl refl, (inl refl, tt)));
}

abbrev calls : List Call
calls = view 40 id_a ∷ create 41 (paste_of (codes "d") 1 0 none) ∷ view 42 id_a ∷ purge ∷ []

run_calls-IsValid_example : IsValid (run_calls calls db).pastes
run_calls-IsValid_example = run_calls-IsValid calls db (tt, (refl, (tt, (tt, tt)))) IsValid-db
