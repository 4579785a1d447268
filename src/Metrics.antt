-- ===== src/Metrics.antt =====
-- src/metrics.rs: the counters of the reconciler. A duration is kept in the milliseconds that the
-- source divides by 1000, a counter (u64 in prometheus_client) as a number without a bound; `trace_text` is the `Display` of a trace id.
pub mod Counts
use sdb_controller.Prelude.{
  ℕ, suc, ◌-◌, Bool, ◌&&◌, Option, none, some, String, ◌==◌, List, [], ◌∷◌, eqb, if◌then◌else◌,
}

-- `opentelemetry::trace::TraceId`, a number; 0 is `INVALID`.
abbrev pub invalid_trace : ℕ
invalid_trace = 0

pub record TraceLabel : Type 0 where
  pub trace_id : String

-- `TraceLabel::try_from(id).ok()`
unfoldable pub try_from : (ℕ → String) → ℕ → Option TraceLabel
try_from trace_text id =
    if eqb id invalid_trace then none else some (record { trace_id = trace_text id })

pub record ErrorLabels : Type 0 where
  pub instance_ : String
  pub error : String

pub record ReconcileMetrics : Type 0 where
  pub runs : ℕ
  pub failures : List (ErrorLabels × ℕ)
  pub duration : List (ℕ × Option TraceLabel)

abbrev pub same_labels : ErrorLabels → ErrorLabels → Bool
same_labels a b = a.instance_ == b.instance_ && a.error == b.error

-- `failures.get_or_create(labels).inc()`
unfoldable pub increment : ErrorLabels → List (ErrorLabels × ℕ) → List (ErrorLabels × ℕ)
increment labels [] = (labels, 1) ∷ []
increment labels ((other, n) ∷ family) =
    if same_labels labels other
    then (other, suc n) ∷ family
    else (other, n) ∷ increment labels family

unfoldable pub set_failure : String → String → ReconcileMetrics → ReconcileMetrics
unfolding increment
set_failure name label m = record m {
  failures = increment (record { instance_ = name; error = label }) m.failures;
}

pub record ReconcileMeasurer : Type 0 where
  pub start : ℕ
  pub labels : Option TraceLabel

unfoldable pub count_and_measure :
    (ℕ → String) → ℕ → ℕ → ReconcileMetrics → ReconcileMeasurer × ReconcileMetrics
unfolding try_from
count_and_measure trace_text trace_id now m =
    (record { start = now; labels = try_from trace_text trace_id }, record m { runs = suc m.runs })

-- `Drop for ReconcileMeasurer`
unfoldable pub drop : ReconcileMeasurer → ℕ → ReconcileMetrics → ReconcileMetrics
drop measurer now m = record m { duration = (now - measurer.start, measurer.labels) ∷ m.duration }
