-- ===== src/Server/Learner.antt =====
-- src/server/domainlearn.go: the domain that is learned from the hosts which trusted proxies report.
pub mod Samples
use pastebin.Base.{
  ℕ, ◌+◌, ◌-◌, Bool, true, false, not, ◌||◌, Option, none, some, List, [], ◌∷◌, ◌++◌, Bytes, codes,
  bytes_eq, if◌then◌else◌, ltb, leb, length,
}
use pastebin.Base.Int.{ℤ, is_positive, pos_part}
use pastebin.Server.Request.{is_empty}

-- The settings url_detection; the window is in nanoseconds.
pub record UrlDetectionConfig : Type 0 where
  pub learning : Bool
  pub sample_window : ℤ
  pub min_samples : ℤ

-- The times at which a host was observed; a host that was never observed has none.
pub record DomainLearner : Type 0 where
  pub observations : Bytes → List ℕ
  pub base_domain : Bytes
  pub wildcard_domain : Bytes

abbrev pub new_domain_learner : DomainLearner
new_domain_learner = record { observations = λ host. []; base_domain = []; wildcard_domain = [] }

unfoldable pub put : Bytes → List ℕ → (Bytes → List ℕ) → Bytes → List ℕ
unfolding bytes_eq
put host times m other = if bytes_eq other host then times else m other

-- The times behind the cutoff, `now - window`; with no time before 0 the test is on the sum.
unfoldable pub fresh : ℕ → ℕ → List ℕ → List ℕ
fresh now window [] = []
fresh now window (t ∷ times) =
    let rest = fresh now window times in if ltb now (t + window) then t ∷ rest else rest

abbrev pub window_of : UrlDetectionConfig → ℕ
window_of cfg = if is_positive cfg.sample_window then pos_part cfg.sample_window else 300000000000

abbrev pub min_of : UrlDetectionConfig → ℕ
min_of cfg = if is_positive cfg.min_samples then pos_part cfg.min_samples else 3

-- The base domain that the host of enough samples gives.
abbrev pub promoted : DomainLearner → Option Bytes → DomainLearner
promoted d none = d
promoted d (some base) =
    if is_empty base
    then d
    else if bytes_eq base d.base_domain
    then d
    else record d { base_domain = base; wildcard_domain = codes "*." ++ base }

abbrev pub recorded : UrlDetectionConfig → ℕ → Bytes → DomainLearner → DomainLearner
recorded cfg now host d = record d {
  observations =
      put host (fresh now (window_of cfg) (d.observations host ++ now ∷ [])) d.observations;
}

-- `etld_plus_one` is publicsuffix.EffectiveTLDPlusOne. The configuration is `none` for a nil pointer.
module _ (etld_plus_one : Bytes → Option Bytes) where
  abbrev pub learned : UrlDetectionConfig → ℕ → Bytes → DomainLearner → DomainLearner
  learned cfg now host d =
      let seen = recorded cfg now host d in
      if ltb (length (seen.observations host)) (min_of cfg)
      then seen
      else promoted seen (etld_plus_one host)

  unfoldable pub observe : Option UrlDetectionConfig → ℕ → Bytes → DomainLearner → DomainLearner
  observe none now host d = d
  observe (some cfg) now host d =
      if is_empty host || not cfg.learning then d else learned cfg now host d

  -- What a run of observations leaves, the newest first.
  unfoldable pub observe_all : Option UrlDetectionConfig → List (ℕ × Bytes) → DomainLearner
  observe_all cfg [] = new_domain_learner
  observe_all cfg ((now, host) ∷ earlier) = observe cfg now host (observe_all cfg earlier)

-- The origins that CORS allows for the learned domain.
unfoldable pub cors_origins : DomainLearner → List Bytes
cors_origins d =
    if is_empty d.base_domain
    then []
    else (codes "https://" ++ d.base_domain)
      ∷ (codes "http://" ++ d.base_domain)
      ∷ (codes "https://" ++ d.wildcard_domain)
      ∷ (codes "http://" ++ d.wildcard_domain)
      ∷ []
