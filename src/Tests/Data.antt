-- ===== src/Tests/Data.antt =====
-- The pastes, tokens, tables and caches of the tests.
use pastebin.Base.{ℕ, ◌≡◌, ap, true, false, [], ◌∷◌, Option, none, some, Bytes, codes}
use pastebin.Base.Int.{pos}
use pastebin.Model.{Paste}
use pastebin.Database.State.{Db, Token, TaskRow}
use pastebin.Cache.Memory.{MemoryCache, Entry}
use pastebin.Handler.Cached.{Codec, World}

abbrev pub paste_of : Bytes → ℕ → ℕ → Option ℕ → Paste
paste_of id burn_after created_at expires_at = record {
  id = id;
  title = codes "note";
  content = codes "text";
  content_type = codes "text/plain";
  language = codes "text";
  visibility = 0;
  is_link = false;
  expires_at = expires_at;
  burn_after = burn_after;
  delete_token_hash = [];
  views = 0;
  created_at = created_at;
  updated_at = created_at;
}

abbrev pub id_a : Bytes
id_a = codes "a"

abbrev pub id_b : Bytes
id_b = codes "b"

abbrev pub id_c : Bytes
id_c = codes "c"

-- Burns after two views; expires at 50; stays.
abbrev pub burning : Paste
burning = paste_of id_a 2 10 none

abbrev pub expiring : Paste
expiring = paste_of id_b 0 20 (some 50)

abbrev pub lasting : Paste
lasting = paste_of id_c 0 30 none

abbrev pub hash_a : Bytes
hash_a = codes "hash-a"

-- Grants access to paste "a" until the Unix second 100.
abbrev pub token_a : Token
token_a = record {
  id = 1;
  token_hash = hash_a;
  token_prefix = codes "adm_1";
  resource_type = codes "paste";
  resource_id = id_a;
  created_at = 5;
  expires_at = some 100;
  last_used_at = none;
  revoked_at = none;
  revoked_reason = none;
}

abbrev pub row_t : TaskRow
row_t = record {
  task_id = codes "t";
  task_name = codes "task";
  schedule = codes "@hourly";
  last_run = some 40;
  last_status = codes "failed";
  last_error = codes "e";
  next_run = some 90;
  run_count = 3;
  fail_count = 1;
  enabled = true;
}

abbrev pub db : Db
db = record {
  pastes = burning ∷ expiring ∷ lasting ∷ [];
  tokens = token_a ∷ [];
  next_token = 2;
  tasks = row_t ∷ [];
  history = [];
  faults = [];
}

abbrev pub faulty : Db
faulty = record db { faults = false ∷ true ∷ [] }

abbrev pub empty_cache : MemoryCache
empty_cache = record { entries = []; prefix = codes "pb:"; default_ttl = pos 100 }

abbrev pub row_k : Entry
row_k = record { key = codes "pb:k"; value = codes "v"; expires_at = 60 }

abbrev pub cache : MemoryCache
cache = record empty_cache { entries = row_k ∷ [] }

abbrev pub key_k : Bytes
key_k = codes "k"

-- A codec that can encode one paste.
abbrev pub sample_codec : Codec
sample_codec = record {
  encode = λ p. some (codes "{}");
  decode = λ raw. some lasting;
  IsText = λ p. lasting ≡ record p { delete_token_hash = [] };
  decode-encode = λ p text e. ap some text;
}

abbrev pub world : World MemoryCache
world = record { db = db; cache = some empty_cache }

-- A hash function for the tests: a paste's token "t" has the hash that the table holds.
abbrev pub test_hash : Bytes → Bytes
test_hash token = hash_a
