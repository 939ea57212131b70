-- ===== src/Analytics/Totals.antt =====
-- The error rate of the overview against the counts by level.
use native.Mathlib.Nat.{lt_of_mul-lt-mul_left}
use org_log.Prelude.{
  ℕ, ◌+◌, ◌*◌, ◌≤◌, ◌<◌, ◌≡◌, refl, String, false, some, List, [], ◌∷◌, str_eq, ltb, eq_iff, arith,
  Bool-cases, inl, inr,
}
use org_log.Types.{LogAnalytics}
use org_log.Analytics.{count_at, IsNearest, total_errors, error_rate}
use org_log.Analytics.Shares.{total}

count_at-le : (key : String) (entries : List (String × ℕ)) → count_at key entries ≤ total entries
unfolding count_at total
count_at-le key [] = omega arith
count_at-le key ((k, n) ∷ entries) = ground (arith, count_at-le key entries)

-- Two different keys count different entries.
count_at-two :
    (key other : String) (entries : List (String × ℕ))
    → str_eq key other ≡ false
    → count_at key entries + count_at other entries ≤ total entries
unfolding count_at total
count_at-two key other [] h = omega arith
count_at-two key other ((k, n) ∷ entries) h = ground (
  arith,
  count_at-two key other entries h,
  count_at-le key entries,
  count_at-le other entries,
  eq_iff k key,
  eq_iff k other,
  eq_iff key other,
)

module _ (to_fixed : ℕ → ℕ → ℕ → ℕ) (nearest : IsNearest to_fixed) where
  to_fixed_le : (part whole : ℕ) → 0 < whole → part ≤ whole → to_fixed 10000 part whole ≤ 10000
  to_fixed_le part whole p h =
      let below = nearest.below 10000 part whole p in
      let under : whole * (to_fixed 10000 part whole) < whole * 10001 = omega (arith, below) in
      omega (arith, lt_of_mul-lt-mul_left whole under)

  -- If the counts by level add up to at most the total, there are at most so many errors, and the
  -- error rate is at most 100.00 %.
  pub error_rate_lem :
      (a : LogAnalytics)
      → total a.logs_by_level ≤ a.total_logs
      → (total_errors (some a) ≤ a.total_logs) × (error_rate to_fixed (some a) ≤ 10000)
  unfolding total_errors error_rate
  error_rate_lem a h = (
    few,
    elim (Bool-cases (ltb 0 a.total_logs)) [
      | inl p ↦ rw p (
          to_fixed_le (count_at "ERROR" a.logs_by_level + count_at "CRITICAL" a.logs_by_level)
            a.total_logs (ground arith) few)
      | inr p ↦ rw p (omega arith)
    ],
  )
    where
      few : count_at "ERROR" a.logs_by_level + count_at "CRITICAL" a.logs_by_level ≤ a.total_logs
      few = omega (arith, count_at-two "ERROR" "CRITICAL" a.logs_by_level refl)
