-- ===== src/Analytics/Rates.antt =====
-- The error rate of the banner against the percentages of the legend beside it.
use native.Mathlib.Nat.{le_of_mul-le-mul_left}
use org_log.Prelude.{
  ℕ, ◌+◌, ◌*◌, ◌≤◌, ◌<◌, ◌≡◌, String, some, List, [], ◌∷◌, str_eq, lt→ltb, arith, if◌then◌else◌,
  Bool-cases, inl, inr,
}
use org_log.Types.{LogAnalytics}
use org_log.Analytics.{count_at, IsNearest, total_errors, error_rate}
use org_log.Analytics.Shares.{Share, total, shares_of}
use org_log.Analytics.Totals.{error_rate_lem}

-- The percentage that the legend has for a level, in tenths; 0 without a row for it.
unfoldable pub percentage_at : String → List Share → ℕ
percentage_at key [] = 0
percentage_at key (s ∷ shares) =
    let rest = percentage_at key shares in if str_eq s.name key then s.percentage else rest

module _ (to_fixed : ℕ → ℕ → ℕ → ℕ) (nearest : IsNearest to_fixed) where
  -- Twice the percentage times the whole, up to the whole.
  percentage_at-bounds :
      (key : String) (whole : ℕ) (entries : List (String × ℕ))
      → 0 < whole
      → (percentage_at key (shares_of to_fixed whole entries) * (2 * whole)
          ≤ 2000 * count_at key entries + whole)
        × (2000 * count_at key entries
            ≤ percentage_at key (shares_of to_fixed whole entries) * (2 * whole) + whole)
  unfolding percentage_at shares_of count_at
  percentage_at-bounds key whole [] h = (omega arith, omega arith)
  percentage_at-bounds key whole ((name, value) ∷ entries) h = elim (Bool-cases (str_eq name key)) [
    | inl e ↦
        let a = nearest.below 1000 value whole h in
        let b = nearest.above 1000 value whole h in
        rw (e, lt→ltb 0 whole h) (omega arith, omega arith)
    | inr e ↦ rw e (percentage_at-bounds key whole entries h)
  ]

  -- A rounded rate of a sum in hundredths against the sum of the rounded rates in tenths.
  sums_close :
      (w r l c m n : ℕ)
      → 0 < w
      → (r * (2 * w) ≤ 2 * 10000 * (m + n) + w) × (2 * 10000 * (m + n) ≤ r * (2 * w) + w)
      → (l * (2 * w) ≤ 2000 * m + w) × (2000 * m ≤ l * (2 * w) + w)
      → (c * (2 * w) ≤ 2000 * n + w) × (2000 * n ≤ c * (2 * w) + w)
      → (2 * r ≤ 20 * (l + c) + 21) × (20 * (l + c) ≤ 2 * r + 21)
  sums_close w r l c m n h (r_low, r_high) (l_low, l_high) (c_low, c_high) =
      (le_of_mul-le-mul_left {k = w} (omega arith) h, le_of_mul-le-mul_left {k = w} (omega arith) h)

  -- If there are logs, and their numbers by level add up to their total: the error rate is at most
  -- 100.00 %, and it is the sum of the two percentages that the legend has for ERROR and for
  -- CRITICAL, up to 0.105 percentage points.
  pub error_rate-legend :
      (a : LogAnalytics)
      → 0 < a.total_logs
      → total a.logs_by_level ≡ a.total_logs
      → let rate = error_rate to_fixed (some a) in
        let legend = shares_of to_fixed (total a.logs_by_level) a.logs_by_level in
        let sum = percentage_at "ERROR" legend + percentage_at "CRITICAL" legend in
        (rate ≤ 10000) × (2 * rate ≤ 20 * sum + 21) × (20 * sum ≤ 2 * rate + 21)
  unfolding error_rate total_errors
  error_rate-legend a h e =
      let w = a.total_logs in
      let legend = shares_of to_fixed w a.logs_by_level in
      let errors = count_at "ERROR" a.logs_by_level in
      let criticals = count_at "CRITICAL" a.logs_by_level in
      let few : total a.logs_by_level ≤ w = omega (arith, e) in
      let (low, high) =
        sums_close w (to_fixed 10000 (errors + criticals) w) (percentage_at "ERROR" legend)
          (percentage_at "CRITICAL" legend) errors criticals h
          (
            nearest.below 10000 (errors + criticals) w h,
            nearest.above 10000 (errors + criticals) w h,
          )
          (percentage_at-bounds "ERROR" w a.logs_by_level h)
          (percentage_at-bounds "CRITICAL" w a.logs_by_level h) in
      (
        (error_rate_lem to_fixed nearest a few).1,
        rw (e, lt→ltb 0 w h) low,
        rw (e, lt→ltb 0 w h) high,
      )
