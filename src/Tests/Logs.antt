-- ===== src/Tests/Logs.antt =====
-- Tests of the writer of log files.
use mathlib.Core.List.{Memᴰ}
use pastebin.Base.{
  ◌-◌, ◌^◌, ◌≡◌, refl, inl, ◌⊎◌, true, false, none, some, [], ◌∷◌, ◌++◌, map, Bytes, codes,
  bytes_eq, arith, drop,
}
use pastebin.Base.Int.{pos, negsuc, wrap64}
use pastebin.Base.Text.{
  has_prefix, has_suffix, trim_suffix, trim_space, trim_front_all, trim_front, prefix_length,
  to_lower, split, split_from, parse_int, digits_from, is_digit,
}
use pastebin.Logging.{
  no_interval, forever, keep_count, parse_rotate, add_tokens, add_token, interval_of, parse_size,
}
use pastebin.Logging.Directory.{find}
use pastebin.Logging.Writer.{
  FileWriter, Os, Policy, done, write_line, with_newline, prune, dated_name,
}
use pastebin.Logging.Writer.Keeping.{IsHealthy}
use pastebin.Logging.Writer.Sizes.{Fits}
use pastebin.Logging.Writer.Outcome.{IsReliable, write_line_outcome}
use pastebin.Logging.Writer.Archives.{second_rotation_replaces, zipped_name, once, twice}
use pastebin.Logging.Writer.Retaining.{archives, prune_newest}

abbrev healthy_os : Os
healthy_os = record {
  opens = true;
  reopens = true;
  renames = true;
  zips = done;
  removes = λ n. true;
  takes = λ n. n;
}

abbrev policy : Policy
policy = record {
  path = codes "log";
  rotate = record { interval = no_interval; max_bytes = pos 8 };
  keep = forever;
  compress = true;
  hold_open = true;
}

abbrev gzip : Bytes → Bytes
gzip s = codes "z" ++ s

abbrev closed : FileWriter
closed = record { is_open = false; size = 0; period_start = 0; dir = [] }

write_line_outcome_example :
    (((write_line gzip healthy_os policy 5 (codes "one") closed).1 ≡ true)
      × Fits policy 8
          (with_newline (codes "one"))
          (write_line gzip healthy_os policy 5 (codes "one") closed).0)
    ⊎ (((write_line gzip healthy_os policy 5 (codes "one") closed).1 ≡ false)
        × (¬ IsReliable healthy_os))
write_line_outcome_example =
    write_line_outcome gzip healthy_os policy 5 8 (codes "one") closed refl (omega arith) (inl refl)

healthy_os-IsHealthy : IsHealthy healthy_os
healthy_os-IsHealthy = record { renames = refl; zips = refl; removes = λ n. refl }

-- Two instants of the first day.
second_rotation_replaces_example :
    (find
        (zipped_name (codes "log") 5)
        (once gzip healthy_os policy closed 5 7 (codes "one") (codes "two")).dir
      ≡ some (record { name = zipped_name (codes "log") 5; text = codes "zone"; mod_time = 5 }))
    × (find
          (zipped_name (codes "log") 5)
          (twice gzip healthy_os policy closed 5 7 (codes "one") (codes "two")).dir
        ≡ some (record { name = zipped_name (codes "log") 5; text = codes "ztwo"; mod_time = 7 }))
    × (find (codes "log") (twice gzip healthy_os policy closed 5 7 (codes "one") (codes "two")).dir
        ≡ none)
    × (find
          (dated_name (codes "log") 5)
          (twice gzip healthy_os policy closed 5 7 (codes "one") (codes "two")).dir
        ≡ none)
    × ((n : Bytes)
        → (n ≡ codes "log")
          ⊎ (n ≡ dated_name (codes "log") 5)
          ⊎ (n ≡ zipped_name (codes "log") 5)
          ⊎ (find n (twice gzip healthy_os policy closed 5 7 (codes "one") (codes "two")).dir
              ≡ find n []))
second_rotation_replaces_example =
    second_rotation_replaces gzip healthy_os policy closed 5 7 (codes "one") (codes "two")
      healthy_os-IsHealthy refl refl refl (unfold find in refl)

abbrev keeping_one : Policy
keeping_one = record policy { keep = keep_count 1 }

abbrev archived : FileWriter
archived = record closed {
  dir =
      record { name = codes "log.1"; text = codes "a"; mod_time = 1 }
      ∷ record { name = codes "log.2"; text = codes "b"; mod_time = 2 }
      ∷ [];
}

prune_newest_example :
    ((m : Bytes)
      → (Memᴰ m (map (λ f. f.name) (drop 1 (archives keeping_one archived)))
          × (find m (prune gzip healthy_os keeping_one 9 archived).0.dir ≡ none))
        ⊎ ((¬ Memᴰ m (map (λ f. f.name) (drop 1 (archives keeping_one archived))))
            × (find m (prune gzip healthy_os keeping_one 9 archived).0.dir ≡ find m archived.dir)))
    × (¬ Memᴰ (codes "log") (map (λ f. f.name) (drop 1 (archives keeping_one archived))))
prune_newest_example = prune_newest gzip healthy_os keeping_one 1 9 archived refl (λ m. refl)

-- A size of 2 ^ 43 megabytes is read as a limit below 0, so that the file is never rotated.
huge_size :
    parse_rotate (codes "8796093022208MB")
    ≡ some (record { interval = no_interval; max_bytes = negsuc (2 ^ 63 - 1) })
unfolding parse_rotate add_tokens add_token interval_of parse_size bytes_eq has_suffix has_prefix
    trim_suffix trim_space trim_front_all trim_front prefix_length to_lower split split_from
    parse_int digits_from is_digit wrap64
huge_size = refl
