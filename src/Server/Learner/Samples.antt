-- ===== src/Server/Learner/Samples.antt =====
-- How many observations a learned domain takes.
use mathlib.Core.Path.{subst}
use pastebin.Base.{
  ℕ, ◌+◌, ◌≤◌, ◌≡◌, ◌⊎◌, inl, inr, refl, sym, Bool, not, ◌&&◌, ◌||◌, Option, none, some, List, [],
  ◌∷◌, ◌++◌, Bytes, codes, bytes_eq, bytes_eq_iff, bytes_eq_refl, arith, if◌then◌else◌, ltb,
  Bool-cases, if_rule, length,
}
use pastebin.Server.Request.{is_empty}
use pastebin.Server.Learner.{
  UrlDetectionConfig, DomainLearner, put, fresh, window_of, min_of, promoted, recorded, learned,
  observe, observe_all,
}

count : (ℕ → Bool) → List ℕ → ℕ
count p [] = 0
count p (t ∷ times) = (if p t then 1 else 0) + count p times

-- The observations of a host whose times pass a test.
unfoldable pub seen : (ℕ → Bool) → Bytes → List (ℕ × Bytes) → ℕ
seen p host [] = 0
seen p host ((t, other) ∷ trace) = (if bytes_eq other host && p t then 1 else 0) + seen p host trace

abbrev pub recent : ℕ → ℕ → ℕ → Bool
recent now window t = ltb now (t + window)

count-append :
    (p : ℕ → Bool) (xs : List ℕ) (t : ℕ)
    → count p (xs ++ t ∷ []) ≡ count p xs + (if p t then 1 else 0)
unfolding count
count-append p [] t = omega arith
count-append p (x ∷ xs) t = omega (arith, count-append p xs t)

count-fresh :
    (p : ℕ → Bool) (now window : ℕ) (xs : List ℕ) → count p (fresh now window xs) ≤ count p xs
unfolding count fresh
count-fresh p now window [] = omega arith
count-fresh p now window (x ∷ xs) = ground (arith, count-fresh p now window xs)

length-fresh :
    (now window : ℕ) (xs : List ℕ) → length (fresh now window xs) ≡ count (recent now window) xs
unfolding count fresh
length-fresh now window [] = refl
length-fresh now window (x ∷ xs) = ground (arith, length-fresh now window xs)

-- Some observation of the run brought the samples of its host in the window up to the number that is asked, and
-- its host gives the domain.
abbrev pub Promoted :
    (Bytes → Option Bytes) → UrlDetectionConfig → Bytes → List (ℕ × Bytes) → Type 0
Promoted etld cfg base [] = ⊥
Promoted etld cfg base ((now, host) ∷ earlier) =
    ((etld host ≡ some base)
      × (min_of cfg ≤ seen (recent now (window_of cfg)) host ((now, host) ∷ earlier)))
    ⊎ Promoted etld cfg base earlier

abbrev Counted : DomainLearner → List (ℕ × Bytes) → Type 0
Counted d trace = (p : ℕ → Bool) (host : Bytes) → count p (d.observations host) ≤ seen p host trace

put_self : (host : Bytes) (times : List ℕ) (m : Bytes → List ℕ) → put host times m host ≡ times
unfolding put
put_self host times m = rw (bytes_eq_refl host) refl

seen_self :
    (p : ℕ → Bool) (now : ℕ) (host : Bytes) (trace : List (ℕ × Bytes))
    → seen p host ((now, host) ∷ trace) ≡ (if p now then 1 else 0) + seen p host trace
unfolding seen
seen_self p now host trace = rw (bytes_eq_refl host) refl

recorded-Counted :
    (cfg : UrlDetectionConfig) (now : ℕ) (host : Bytes) (d : DomainLearner)
    (trace : List (ℕ × Bytes))
    → Counted d trace
    → Counted (recorded cfg now host d) ((now, host) ∷ trace)
recorded-Counted cfg now host d trace c p other = elim (Bool-cases (bytes_eq other host)) [
  | inr e ↦ unfold put seen in rw e (omega (arith, c p other))
  | inl e ↦
      let times = d.observations host ++ now ∷ [] in
      let kept = fresh now (window_of cfg) times in
      rw
        (
          (bytes_eq_iff other host).0 e,
          put_self host kept d.observations,
          seen_self p now host trace,
        )
        (omega (
          arith,
          c p host,
          count-append p (d.observations host) now,
          count-fresh p now (window_of cfg) times,
        ))
]

recorded_samples :
    (cfg : UrlDetectionConfig) (now : ℕ) (host : Bytes) (d : DomainLearner)
    (trace : List (ℕ × Bytes))
    → Counted d trace
    → length ((recorded cfg now host d).observations host)
      ≤ seen (recent now (window_of cfg)) host ((now, host) ∷ trace)
recorded_samples cfg now host d trace c =
    let times = d.observations host ++ now ∷ [] in
    let q = recent now (window_of cfg) in
    rw (put_self host (fresh now (window_of cfg) times) d.observations, seen_self q now host trace)
      (omega (
        arith,
        c q host,
        count-append q (d.observations host) now,
        length-fresh now (window_of cfg) times,
      ))

-- Nothing is learned, or what is learned was promoted.
abbrev Known :
    (Bytes → Option Bytes) → UrlDetectionConfig → DomainLearner → List (ℕ × Bytes) → Type 0
Known etld cfg d trace =
    ((d.base_domain ≡ []) × (d.wildcard_domain ≡ []))
    ⊎ (Promoted etld cfg d.base_domain trace × (d.wildcard_domain ≡ codes "*." ++ d.base_domain))

Known-later :
    (etld : Bytes → Option Bytes) (cfg : UrlDetectionConfig) (d : DomainLearner) (e : ℕ × Bytes)
    (trace : List (ℕ × Bytes))
    → Known etld cfg d trace
    → Known etld cfg d (e ∷ trace)
Known-later etld cfg d (now, host) trace (inl k) = inl k
Known-later etld cfg d (now, host) trace (inr (p, w)) = inr (inr p, w)

promoted-Known :
    (etld : Bytes → Option Bytes) (cfg : UrlDetectionConfig) (d : DomainLearner) (now : ℕ)
    (host : Bytes) (trace : List (ℕ × Bytes)) (o : Option Bytes)
    → etld host ≡ o
    → min_of cfg ≤ seen (recent now (window_of cfg)) host ((now, host) ∷ trace)
    → Known etld cfg d trace
    → Known etld cfg (promoted d o) ((now, host) ∷ trace)
promoted-Known etld cfg d now host trace none e m k = Known-later etld cfg d (now, host) trace k
promoted-Known etld cfg d now host trace (some base) e m k =
    let kept = Known-later etld cfg d (now, host) trace k in
    let after = λ (l : DomainLearner). Known etld cfg l ((now, host) ∷ trace) in
    let next = record d { base_domain = base; wildcard_domain = codes "*." ++ base } in
    if_rule after (is_empty base) d (if bytes_eq base d.base_domain then d else next) (λ z. kept)
      (λ z.
        if_rule after (bytes_eq base d.base_domain) d next (λ s. kept)
          (λ s. inr (inl (e, m), refl)))

promoted-observations :
    (d : DomainLearner) (o : Option Bytes) → (promoted d o).observations ≡ d.observations
promoted-observations d none = refl
promoted-observations d (some base) = elim (Bool-cases (is_empty base)) [
  | inl z ↦ rw z refl
  | inr z ↦ elim (Bool-cases (bytes_eq base d.base_domain)) [
    | inl same ↦ rw (z, same) refl
    | inr new ↦ rw (z, new) refl
  ]
]

abbrev Inv : (Bytes → Option Bytes) → UrlDetectionConfig → DomainLearner → List (ℕ × Bytes) → Type 0
Inv etld cfg d trace = Counted d trace × Known etld cfg d trace

learned-Inv :
    (etld : Bytes → Option Bytes) (cfg : UrlDetectionConfig) (d : DomainLearner) (now : ℕ)
    (host : Bytes) (trace : List (ℕ × Bytes))
    → Inv etld cfg d trace
    → Inv etld cfg (learned etld cfg now host d) ((now, host) ∷ trace)
learned-Inv etld cfg d now host trace (c, k) =
    let next = recorded cfg now host d in
    let counted = recorded-Counted cfg now host d trace c in
    if_rule (λ l. Inv etld cfg l ((now, host) ∷ trace))
      (ltb (length (next.observations host)) (min_of cfg)) next (promoted next (etld host))
      (λ few. (counted, Known-later etld cfg next (now, host) trace k))
      (λ many.
        let enough : min_of cfg ≤ seen (recent now (window_of cfg)) host ((now, host) ∷ trace) =
          ground (arith, recorded_samples cfg now host d trace c) in
        (
          subst (λ m. (p : ℕ → Bool) (h : Bytes) → count p (m h) ≤ seen p h ((now, host) ∷ trace))
              (sym (promoted-observations next (etld host))) counted,
          promoted-Known etld cfg next now host trace (etld host) refl enough k,
        ))

Counted-later :
    (d : DomainLearner) (e : ℕ × Bytes) (trace : List (ℕ × Bytes))
    → Counted d trace
    → Counted d (e ∷ trace)
unfolding seen
Counted-later d (now, host) trace c p other = omega (arith, c p other)

observe_all-Inv :
    (etld : Bytes → Option Bytes) (cfg : UrlDetectionConfig) (trace : List (ℕ × Bytes))
    → Inv etld cfg (observe_all etld (some cfg) trace) trace
unfolding observe_all observe count seen
observe_all-Inv etld cfg [] = (λ p host. omega arith, inl (refl, refl))
observe_all-Inv etld cfg ((now, host) ∷ trace) =
    let d = observe_all etld (some cfg) trace in
    let (c, k) = observe_all-Inv etld cfg trace in
    if_rule (λ l. Inv etld cfg l ((now, host) ∷ trace)) (is_empty host || not cfg.learning) d
      (learned etld cfg now host d)
      (λ off. (Counted-later d (now, host) trace c, Known-later etld cfg d (now, host) trace k))
      (λ on. learned-Inv etld cfg d now host trace (c, k))

-- Behind any run of observations, newest first, nothing is learned or the base domain was promoted by an
-- observation of a host that gives it and had, with this one, the samples in the window that the settings ask; and
-- the wildcard domain is the one of the base domain.
pub observe_all-Promoted :
    (etld : Bytes → Option Bytes) (cfg : UrlDetectionConfig) (trace : List (ℕ × Bytes))
    → (((observe_all etld (some cfg) trace).base_domain ≡ [])
        × ((observe_all etld (some cfg) trace).wildcard_domain ≡ []))
      ⊎ (Promoted etld cfg (observe_all etld (some cfg) trace).base_domain trace
          × ((observe_all etld (some cfg) trace).wildcard_domain
              ≡ codes "*." ++ (observe_all etld (some cfg) trace).base_domain))
observe_all-Promoted etld cfg trace = (observe_all-Inv etld cfg trace).1
