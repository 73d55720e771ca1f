-- ===== src/Tests/Requests.antt =====
-- Tests of what a request may ask for.
use pastebin.Base.{[], ◌∷◌}
use pastebin.Model.{to_list_item}
use pastebin.Handler.Request.{Page}
use pastebin.Tests.Data.{lasting, expiring}

abbrev first_page : Page
first_page = record {
  items = to_list_item lasting ∷ to_list_item expiring ∷ [];
  page = 1;
  limit = 2;
  total = 3;
  pages = 2;
}
