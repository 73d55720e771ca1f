-- ===== src/Config/Switches/Words.antt =====
-- The words of a switch.
use pastebin.Base.{
  ◌≡◌, ◌⊎◌, inl, inr, refl, ◌↔◌, Bool, true, false, not, ◌&&◌, some, List, [], ◌∷◌, Bytes, bytes_eq,
  bytes_eq_iff, arith, Bool-cases,
}
use pastebin.Base.Text.{trim_space, to_lower}
use pastebin.Config.Switches.{
  truthy_values, falsy_values, is_word, is_empty, parse_bool, is_truthy, is_falsy,
}

none_among : List Bytes → List Bytes → Bool
none_among [] words = true
none_among (w ∷ others) words = not (is_word w words) && none_among others words

apart :
    (s : Bytes) (others words : List Bytes)
    → none_among others words ≡ true
    → is_word s others ≡ true
    → is_word s words ≡ false
unfolding none_among
apart s [] words h m = absurd (unfold is_word in cc)
apart s (w ∷ others) words h m = elim (Bool-cases (bytes_eq s w)) [
  | inl e ↦ rw ((bytes_eq_iff s w).0 e) (ground arith)
  | inr e ↦
      let rest : is_word s others ≡ true = unfold is_word in ground (arith, m, e) in
      apart s others words (ground arith) rest
]

tables_apart : none_among truthy_values falsy_values ≡ true
unfolding none_among is_word bytes_eq
tables_apart = refl

not_both : (s : Bytes) → is_word s truthy_values ≡ true → is_word s falsy_values ≡ false
not_both s h = apart s truthy_values falsy_values tables_apart h

-- A switch that is not blank is on exactly for a truthy word and off exactly for a falsy one, in any case of letters and
-- between white space; no word is both, and any other is the error. A blank switch has its default.
pub parse_bool_words :
    (text : Bytes) (default : Bool)
    → ((is_empty (trim_space (to_lower text)) ≡ true) × (parse_bool text default ≡ some default))
      ⊎ ((is_empty (trim_space (to_lower text)) ≡ false)
          × ((parse_bool text default ≡ some true) ↔ (is_truthy text ≡ true))
          × ((parse_bool text default ≡ some false) ↔ (is_falsy text ≡ true))
          × ((is_truthy text && is_falsy text) ≡ false))
unfolding parse_bool is_truthy is_falsy
parse_bool_words text default =
    let s = trim_space (to_lower text) in
    elim (Bool-cases (is_empty s)) [
      | inl e ↦ rw e (inl (refl, refl))
      | inr e ↦ elim (Bool-cases (is_word s truthy_values)) [
        | inl t ↦
            rw (e, t, not_both s t) (inr (refl, (λ h. refl, λ h. refl), (λ h. cc, λ h. cc), refl))
        | inr t ↦ elim (Bool-cases (is_word s falsy_values)) [
          | inl f ↦ rw (e, t, f) (inr (refl, (λ h. cc, λ h. cc), (λ h. refl, λ h. refl), refl))
          | inr f ↦ rw (e, t, f) (inr (refl, (λ h. cc, λ h. cc), (λ h. cc, λ h. cc), refl))
        ]
      ]
    ]
