-- ===== src/Logging/Writer.antt =====
-- src/logging/rotate.go: fileWriter and gzipAndRemove. An instant is the number of nanoseconds since Go's
-- zero time, and a call reads the clock once. The directory of the log holds its files by name; nothing else writes
-- there.
pub mod Files
pub mod Keeping
pub mod Rotating
pub mod Sizes
pub mod Archives
pub mod Outcome
pub mod Retaining
use pastebin.Base.{
  ℕ, zero, suc, ◌+◌, ◌-◌, ◌*◌, ◌/◌, ◌%◌, Bool, true, false, not, ◌&&◌, ◌||◌, Option, none, some,
  List, [], ◌∷◌, ◌++◌, Bytes, codes, bytes_eq, if◌then◌else◌, ltb, leb, ◌==◌, take, drop, length,
  is_some,
}
use pastebin.Base.Int.{ℤ, pos, negsuc, is_positive, pos_part}
use pastebin.Base.Sort.{order_desc}
use pastebin.Base.Text.{has_suffix, has_prefix}
use pastebin.Base.Decimal.{decimal}
use pastebin.Calendar.{year_of, month_of, day_of, first_of}
use pastebin.Logging.{
  Interval, no_interval, daily, weekly, monthly, yearly, RotatePolicy, KeepPolicy, keep_none,
  forever, keep_count, keep_age,
}
use pastebin.Logging.Periods.{
  two, four, day_number, second_of, date_text, clock_text, thursday, week_text, period_key,
}
use pastebin.Logging.Directory.{File, Directory, find, remove, put}

-- How the compression of a file ends: before its target is opened, behind that, so that the target is removed, or
-- well.
pub data Zipping : Type 0 where
  untouched broken done : Zipping

-- What the operating system does in a call: which steps fail, which files cannot be removed, and how many bytes of a
-- write it takes.
pub record Os : Type 0 where
  pub opens : Bool
  pub reopens : Bool
  pub renames : Bool
  pub zips : Zipping
  pub removes : Bytes → Bool
  pub takes : ℕ → ℕ

-- The permissions of the file are left out.
pub record Policy : Type 0 where
  pub path : Bytes
  pub rotate : RotatePolicy
  pub keep : KeepPolicy
  pub compress : Bool
  pub hold_open : Bool

-- `is_open` says that there is a handle, which is one of the file at the path.
pub record FileWriter : Type 0 where
  pub is_open : Bool
  pub size : ℕ
  pub period_start : ℕ
  pub dir : Directory

abbrev pub close_locked : FileWriter → FileWriter
close_locked w = record w { is_open = false }

unfoldable pub names_under : Bytes → Directory → Directory
unfolding has_prefix
names_under prefix [] = []
names_under prefix (f ∷ fs) =
    let rest = names_under prefix fs in if has_prefix f.name prefix then f ∷ rest else rest

-- The loop of prune over the rotated files, newest first: what is to go.
unfoldable pub doomed : KeepPolicy → ℕ → ℕ → Directory → List Bytes
doomed keep now i [] = []
doomed keep_none now i (f ∷ fs) = f.name ∷ doomed keep_none now (i + 1) fs
doomed forever now i (f ∷ fs) = doomed forever now (i + 1) fs
doomed (keep_count n) now i (f ∷ fs) =
    let rest = doomed (keep_count n) now (i + 1) fs in if leb n i then f.name ∷ rest else rest
doomed (keep_age (pos a)) now i (f ∷ fs) =
    let rest = doomed (keep_age (pos a)) now (i + 1) fs in
    if ltb (f.mod_time + a) now then f.name ∷ rest else rest
doomed (keep_age (negsuc a)) now i (f ∷ fs) =
    let rest = doomed (keep_age (negsuc a)) now (i + 1) fs in
    if ltb f.mod_time (now + suc a) then f.name ∷ rest else rest

-- Removes what can be; says whether all could.
unfoldable pub remove_all : (Bytes → Bool) → List Bytes → Directory → Directory × Bool
unfolding remove
remove_all removes [] fs = (fs, true)
remove_all removes (n ∷ names) fs =
    let (rest, all) = remove_all removes names (if removes n then remove n fs else fs) in
    (rest, removes n && all)

abbrev pub is_forever : KeepPolicy → Bool
is_forever forever = true
is_forever _ = false

abbrev pub is_keep_none : KeepPolicy → Bool
is_keep_none keep_none = true
is_keep_none _ = false

abbrev pub with_newline : Bytes → Bytes
with_newline line = if has_suffix line (10 ∷ []) then line else line ++ 10 ∷ []

abbrev pub appended : ℕ → Bytes → Option File → Directory → Directory
appended now s none dir = dir
appended now s (some f) dir = put (record f { text = f.text ++ s; mod_time = now }) dir

abbrev pub dated_name : Bytes → ℕ → Bytes
dated_name path now = path ++ (b'.' ∷ date_text (day_number now))

-- gzip, and the calls of the operating system.
module _ (gzip : Bytes → Bytes) (os : Os) (p : Policy) where
  -- The state behind a call, and whether it succeeded.
  unfoldable pub prune : ℕ → FileWriter → FileWriter × Bool
  prune now w =
      let files = order_desc (λ f. f.mod_time) (names_under (p.path ++ codes ".") w.dir) in
      let result = remove_all os.removes (doomed p.keep now 0 files) w.dir in
      if is_forever p.keep then (w, true) else (record w { dir = result.0 }, result.1)

  abbrev pub opened : ℕ → Option File → FileWriter → FileWriter
  opened now none w = record w {
    is_open = true;
    size = 0;
    period_start = now;
    dir = put (record { name = p.path; text = []; mod_time = now }) w.dir;
  }
  opened now (some f) w = record w {
    is_open = true;
    size = length f.text;
    period_start = if ltb 0 (length f.text) then f.mod_time else now;
  }

  unfoldable pub open_file : Bool → ℕ → FileWriter → FileWriter × Bool
  open_file opens now w =
      if w.is_open
      then (w, true)
      else if opens
      then (opened now (find p.path w.dir) w, true)
      else (w, false)

  unfoldable pub reopen : ℕ → FileWriter → FileWriter × Bool
  reopen now w =
      if p.hold_open then open_file os.opens now (close_locked w) else (close_locked w, true)

  abbrev pub crosses : ℕ → ℕ → Bool
  crosses start now =
      not (bytes_eq (period_key p.rotate.interval start) (period_key p.rotate.interval now))

  unfoldable pub needs_rotate : ℕ → ℕ → FileWriter → Bool
  needs_rotate n now w =
      if w.size == 0
      then false
      else if is_positive p.rotate.max_bytes && ltb (pos_part p.rotate.max_bytes) (w.size + n)
      then true
      else crosses w.period_start now

  -- The name of the rotated file.
  unfoldable pub rotated_name : ℕ → Directory → Bytes
  rotated_name now dir =
      let dated = dated_name p.path now in
      if is_some (find dated dir) then dated ++ (b'_' ∷ clock_text (second_of now)) else dated

  abbrev pub zipped : ℕ → Bytes → Option File → Directory → Directory
  zipped now n none dir = dir
  zipped now n (some f) dir =
      put (record { name = n ++ codes ".gz"; text = gzip f.text; mod_time = now }) dir

  abbrev pub zip_outcome : ℕ → Bytes → Zipping → Option File → FileWriter → FileWriter × Bool
  zip_outcome now n untouched o w = (w, false)
  zip_outcome now n broken o w = (record w { dir = remove (n ++ codes ".gz") w.dir }, false)
  zip_outcome now n done none w = (w, false)
  zip_outcome now n done (some f) w =
      let dir = zipped now n (some f) w.dir in
      if os.removes n
      then (record w { dir = remove n dir }, true)
      else (record w { dir = dir }, false)

  -- gzipAndRemove: the compressed file takes the place of one of its name, and the original goes.
  unfoldable pub gzip_and_remove : ℕ → Bytes → FileWriter → FileWriter × Bool
  gzip_and_remove now n w = zip_outcome now n os.zips (find n w.dir) w

  abbrev pub then_prune : ℕ → FileWriter × Bool → FileWriter × Bool
  then_prune now (w, true) = prune now w
  then_prune now (w, false) = (w, false)

  abbrev pub retained : ℕ → Bytes → FileWriter → FileWriter × Bool
  retained now n w =
      if is_keep_none p.keep
      then (if os.removes n then (record w { dir = remove n w.dir }, true) else (w, false))
      else if p.compress
      then then_prune now (gzip_and_remove now n w)
      else prune now w

  abbrev pub renamed : ℕ → Bytes → Option File → FileWriter → FileWriter × Bool
  renamed now n none w = (w, false)
  renamed now n (some f) w =
      if os.renames
      then retained now n (record w {
        dir = put (record f { name = n }) (remove p.path w.dir);
        size = 0;
        period_start = now;
      })
      else (w, false)

  unfoldable pub do_rotate : ℕ → FileWriter → FileWriter × Bool
  do_rotate now w = renamed now (rotated_name now w.dir) (find p.path w.dir) (close_locked w)

  -- The write itself, and the close of a writer that does not hold its handle.
  unfoldable pub write_text : ℕ → Bytes → FileWriter → FileWriter × Bool
  write_text now line w =
      let n = os.takes (length line) in
      let next = record w {
        size = w.size + n;
        dir = appended now (take n line) (find p.path w.dir) w.dir;
      } in
      (if p.hold_open then next else close_locked next, leb (length line) n)

  abbrev pub then_write : ℕ → Bytes → FileWriter × Bool → FileWriter × Bool
  then_write now line (w, true) = write_text now line w
  then_write now line (w, false) = (w, false)

  abbrev pub then_open : ℕ → FileWriter × Bool → FileWriter × Bool
  then_open now (w, true) = open_file os.reopens now w
  then_open now (w, false) = (w, false)

  abbrev pub rotated_write : ℕ → Bytes → FileWriter × Bool → FileWriter × Bool
  rotated_write now line (w, false) = (w, false)
  rotated_write now line (w, true) =
      then_write now line
        (if needs_rotate (length line) now w then then_open now (do_rotate now w) else (w, true))

  unfoldable pub write_line : ℕ → Bytes → FileWriter → FileWriter × Bool
  write_line now line w = rotated_write now (with_newline line) (open_file os.opens now w)

  abbrev pub check_file : ℕ → Option File → FileWriter → FileWriter × Bool
  check_file now none w = prune now w
  check_file now (some f) w =
      let start = if w.is_open then w.period_start else f.mod_time in
      let size_hit =
        is_positive p.rotate.max_bytes && leb (pos_part p.rotate.max_bytes) (length f.text) in
      if ltb 0 (length f.text) && (size_hit || crosses start now)
      then do_rotate now w
      else prune now w

  unfoldable pub rotate_check : ℕ → FileWriter → FileWriter × Bool
  rotate_check now w = check_file now (find p.path w.dir) w
