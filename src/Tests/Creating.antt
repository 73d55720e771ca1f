-- ===== src/Tests/Creating.antt =====
-- Tests of the creation of pastes and of their raw content.
use pastebin.Base.{
  ◌≡◌, ◌≢◌, refl, false, [], ◌∷◌, List, Bytes, none, some, codes, find_where, bytes_eq,
}
use pastebin.Base.Text.{
  has_prefix, trim_space, contains_any, to_lower, parse_int, digits_from, is_digit, trim_right,
}
use pastebin.Model.{Paste, CreateResponse}
use pastebin.Database.State.{statement, run_with}
use pastebin.Database.Pastes.Ops.{has_id, get_paste_by_id, create_paste, stamp}
use pastebin.Database.Tokens.Ops.{create_api_token, list_api_tokens}
use pastebin.Handler.Request.{read_limited, parse_expiry}
use pastebin.Handler.Create.Content.{prepare_body, is_single_url_content, plain_content}
use pastebin.Cache.Driver.{noop_driver}
use pastebin.Handler.Cached.{World}
use pastebin.Handler.Serve.{delete_paste_request}
use pastebin.Handler.Create.Input.{
  Library, Form, Upload, Request, read_input, after_dot, detect_language, extract_token,
}
use pastebin.Handler.Create.Storing.{IsStored, IsMade, create_from_request-IsStored}
use pastebin.Handler.Create.Owning.{delete_paste_request-create_from_request}
use pastebin.Handler.Create.{
  Entropy, made, create_from_request, spell, draft, new_paste, pick_id, resolve_token, store_paste,
}
use pastebin.Handler.Raw.{Mime, raw_body}
use pastebin.Handler.Raw.Uploads.{raw_body-of_upload}
use pastebin.Tests.Data.{db, sample_codec}

pub named_type : bytes_eq (codes "image/png") [] ≡ false
unfolding bytes_eq
named_type = refl

-- A sniffer that knows one type, and base64 without its coding.
abbrev pub lib : Library
lib = record {
  decode_request = λ raw. none;
  decode_token = λ raw. [];
  detect_type = λ b. codes "image/png";
  encode64 = λ b. b;
  decode64 = λ b. some b;
  parse_url = λ s. none;
  decode64-encode64 = λ b. refl;
  detect_type_some = λ b. named_type;
}

abbrev form : Form
form = record {
  content = [];
  title = [];
  language = [];
  visibility = codes "unlisted";
  expires_in = [];
  burn_after = codes "3";
}

abbrev file : Upload
file = record { filename = codes "a.png"; content = 7 ∷ 0 ∷ 255 ∷ [] }

abbrev request : Request
request = record {
  content_type = codes "multipart/form-data; boundary=b";
  authorization = [];
  x_api_token = [];
  x_token = [];
  x_delete_token = [];
  x_title = [];
  x_language = [];
  x_expires_in = [];
  query_token = [];
  form_owner_token = [];
  body = [];
  form = some form;
  file = some file;
  base = codes "https://p.example";
}

abbrev pub entropy : Entropy
entropy = record { ids = λ i. some (i ∷ 1 ∷ []); token = some (2 ∷ 3 ∷ []) }

abbrev answer : CreateResponse
answer = record {
  id = codes "ab";
  title = codes "a.png";
  language = codes "text";
  visibility = 1;
  is_link = false;
  burn_after = 3;
  expires_at = none;
  views = 0;
  created_at = 90;
  link = codes "https://p.example/ab";
  owner_token = codes "tok_cd";
}

created : (create_from_request lib (λ b. b) 10 90 request entropy db).0 ≡ made answer
unfolding create_from_request read_input has_prefix read_limited bytes_eq trim_space contains_any
    to_lower after_dot detect_language parse_int digits_from is_digit parse_expiry get_paste_by_id
    create_paste statement run_with find_where create_api_token list_api_tokens spell draft
    new_paste stamp prepare_body is_single_url_content plain_content pick_id resolve_token
    store_paste extract_token trim_right
created = refl

create_from_request-IsStored_example :
    IsStored
      (IsMade lib 90 (read_input lib 10 request))
      request
      answer
      (create_from_request lib (λ b. b) 10 90 request entropy db).1
create_from_request-IsStored_example =
    create_from_request-IsStored lib (λ b. b) 10 90 request entropy db {resp = answer} created

no_token : extract_token lib request [] ≡ []
unfolding extract_token has_prefix bytes_eq
no_token = refl

world_after : World (Unit {0})
world_after = record {
  db = (create_from_request lib (λ b. b) 10 90 request entropy db).1;
  cache = none;
}

delete_paste_request-create_from_request_example :
    (delete_paste_request noop_driver sample_codec
      (λ b. b)
      none
      91
      answer.id
      answer.owner_token
      world_after).0
    ≡ none
unfolding find_where bytes_eq spell world_after
delete_paste_request-create_from_request_example =
    delete_paste_request-create_from_request noop_driver sample_codec (λ b. b) none lib 10 90 91
      request entropy (2 ∷ 3 ∷ []) db world_after {resp = answer} refl (refl, tt) no_token refl refl
      created refl refl

raw_body-of_upload_example :
    (p : Paste) × (find_where
        (has_id answer.id)
        (create_from_request lib (λ b. b) 10 90 request entropy db).1.pastes
      ≡ some p)
    × (raw_body lib p.content p.content_type ≡ file.content)
unfolding has_prefix read_limited is_single_url_content trim_space contains_any bytes_eq
raw_body-of_upload_example =
    raw_body-of_upload lib (λ b. b) 10 90 request entropy db {f = form} {u = file} {resp = answer}
      refl refl refl refl refl refl refl created

abbrev mime : Mime
mime = record { parse_media_type = λ s. some (s, []); format_media_type = λ base params. base }

params_parsed :
    (s base : Bytes) (params : List (Bytes × Bytes))
    → mime.parse_media_type s ≡ some (base, params)
    → mime.format_media_type base params ≢ []
    → mime.parse_media_type (mime.format_media_type base params) ≡ some (base, params)
params_parsed s base params h full = cc

base_parsed :
    (s base : Bytes) (params : List (Bytes × Bytes))
    → mime.parse_media_type s ≡ some (base, params)
    → mime.parse_media_type base ≡ some (base, [])
base_parsed s base params h = refl
