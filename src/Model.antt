-- ===== src/Model.antt =====
-- src/model/models.go: the stored paste and its list view. An instant is the number of nanoseconds
-- since Go's zero time, so that 0 is the time for which `IsZero` holds.
use pastebin.Base.{ℕ, Bool, Option, Bytes}

abbrev pub visibility_public : ℕ
visibility_public = 0

abbrev pub visibility_unlisted : ℕ
visibility_unlisted = 1

-- The program writes no negative `BurnAfter`, `Views` or `Visibility`.
pub record Paste : Type 0 where
  pub id : Bytes
  pub title : Bytes
  pub content : Bytes
  pub content_type : Bytes
  pub language : Bytes
  pub visibility : ℕ
  pub is_link : Bool
  pub expires_at : Option ℕ
  pub burn_after : ℕ
  pub delete_token_hash : Bytes
  pub views : ℕ
  pub created_at : ℕ
  pub updated_at : ℕ

pub record PasteListItem : Type 0 where
  pub id : Bytes
  pub title : Bytes
  pub language : Bytes
  pub views : ℕ
  pub expires_at : Option ℕ
  pub burn_after : ℕ
  pub created_at : ℕ

pub record CreateResponse : Type 0 where
  pub id : Bytes
  pub title : Bytes
  pub language : Bytes
  pub visibility : ℕ
  pub is_link : Bool
  pub burn_after : ℕ
  pub expires_at : Option ℕ
  pub views : ℕ
  pub created_at : ℕ
  pub link : Bytes
  pub owner_token : Bytes

unfoldable pub to_list_item : Paste → PasteListItem
to_list_item p = record {
  id = p.id;
  title = p.title;
  language = p.language;
  views = p.views;
  expires_at = p.expires_at;
  burn_after = p.burn_after;
  created_at = p.created_at;
}
