-- ===== src/Metrics/Counts.antt =====
-- src/metrics.rs: what a failure adds to the counters.
use sdb_controller.Prelude.{◌≡◌, arith, ℕ, suc, true, eq_iff, List, [], ◌∷◌, if◌then◌else◌}
use sdb_controller.Metrics.{ErrorLabels, same_labels, increment}

-- The counter of these labels, as a scrape shows it: 0 if there is none.
abbrev pub counter : ErrorLabels → List (ErrorLabels × ℕ) → ℕ
counter labels [] = 0
counter labels ((other, n) ∷ family) =
    let rest = counter labels family in if same_labels labels other then n else rest

same_labels_trans :
    (a b c : ErrorLabels) → same_labels a b ≡ true → same_labels a c ≡ same_labels b c
same_labels_trans a b c h = ground (
  arith,
  h,
  eq_iff a.instance_ b.instance_,
  eq_iff a.error b.error,
  eq_iff a.instance_ c.instance_,
  eq_iff b.instance_ c.instance_,
  eq_iff a.error c.error,
  eq_iff b.error c.error,
)

same_labels_comm : (a b : ErrorLabels) → same_labels a b ≡ same_labels b a
same_labels_comm a b = ground (
  arith,
  eq_iff a.instance_ b.instance_,
  eq_iff a.error b.error,
  eq_iff b.instance_ a.instance_,
  eq_iff b.error a.error,
)

-- An increment adds one to the counter of its own labels and leaves every other counter.
pub counter-increment :
    (labels other : ErrorLabels) (family : List (ErrorLabels × ℕ))
    → counter other (increment labels family)
      ≡ (if same_labels other labels then suc (counter other family) else counter other family)
unfolding increment
counter-increment labels other [] = ground arith
counter-increment labels other ((key, n) ∷ family) = ground (
  arith,
  counter-increment labels other family,
  same_labels_trans labels key other,
  same_labels_trans other labels key,
  same_labels_comm labels other,
  same_labels_comm key other,
)
