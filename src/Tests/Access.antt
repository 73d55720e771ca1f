-- ===== src/Tests/Access.antt =====
-- Tests of the tokens and of the deleting handler.
use pastebin.Base.{
  ◌≡◌, ◌≢◌, ◌⊎◌, refl, true, Bytes, none, some, codes, find_where, count_where, bytes_eq,
  bytes_eq_iff,
}
use pastebin.Database.State.{
  Token, ok, err, constraint, invalid_token, statement, run_with, ignore_error,
}
use pastebin.Database.Tokens.Ops.{verify_api_token, create_api_token, touch_token}
use pastebin.Database.Tokens.Laws.{grants, verdict, verify-verdict, reused_token_refused}
use pastebin.Database.Pastes.Ops.{has_id, delete_paste}
use pastebin.Cache.Driver.{memory_driver}
use pastebin.Handler.Serve.{is_operator, delete_paste_request, matches}
use pastebin.Handler.Serve.Deleting.{delete-authorized}
use pastebin.Tests.Data.{id_a, id_b, hash_a, token_a, db, world, sample_codec, test_hash}

abbrev kind : Bytes
kind = codes "paste"

verify-verdict_example : (verify_api_token 40 hash_a kind id_a db).0 ≡ ok tt
unfolding verdict find_where grants bytes_eq
verify-verdict_example = verify-verdict 40 hash_a kind id_a db (refl, tt) refl

id_a≢id_b : id_a ≢ id_b
unfolding bytes_eq
id_a≢id_b h = cc ((bytes_eq_iff id_a id_b).1 h)

reused_token_refused_example :
    (create_api_token 41 hash_a (codes "adm_1") kind id_b none db ≡ (err constraint, db))
    × ((verify_api_token 40 hash_a kind id_b db).0 ≡ err invalid_token)
unfolding find_where bytes_eq
reused_token_refused_example =
    reused_token_refused 40 hash_a kind id_b 41 (codes "adm_1") none db {t = token_a} (refl, tt)
      refl refl id_a≢id_b

delete-authorized_example :
    ((is_operator memory_driver sample_codec test_hash none (codes "t") ≡ true)
      ⊎ ((t : Token) × (find_where (grants 40 hash_a (codes "paste") id_a) db.tokens ≡ some t)))
    × (find_where
          (has_id id_a)
          (delete_paste_request memory_driver sample_codec test_hash none 40 id_a
            (codes "t")
            world).1.db.pastes
        ≡ none)
unfolding delete_paste_request verify_api_token statement run_with ignore_error touch_token
    delete_paste find_where count_where bytes_eq matches
delete-authorized_example =
    delete-authorized memory_driver sample_codec test_hash none 40 id_a (codes "t") world (refl, tt)
      refl
