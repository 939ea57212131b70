-- ===== src/Examples/Overview.antt =====
-- The overviews and the sidebar on small data.
use native.Mathlib.Nat.{div-mul-le_self, lt-div-mul-add}
use org_log.Prelude.{
  ℕ, ◌+◌, ◌*◌, ◌/◌, ◌≤◌, ◌≡◌, refl, String, true, false, none, some, List, [], ◌∷◌, ◌++◌, map,
  arith, length,
}
use org_log.Types.{LogAnalytics}
use org_log.Analytics.{IsNearest, error_rate}
use org_log.Analytics.Shares.{
  LevelChart, slice, slice_of, total, distribution, shares_of, sum_percentages, distribution_lem,
}
use org_log.Analytics.Rates.{percentage_at, error_rate-legend}
use org_log.Analytics.Numbers.{plain}
use org_log.Analytics.Pages.{
  dashboard, analytics_overview, charts_of, Holds, skeletons, IsShown, numbers, warnings, errors,
  overviews_lem,
}
use org_log.Examples.{project}

-- Halves upwards.
abbrev rounded : ℕ → ℕ → ℕ → ℕ
rounded scale part whole = (2 * scale * part + whole) / (2 * whole)

rounded-IsNearest : IsNearest rounded
rounded-IsNearest = record {
  below = λ scale part whole h. div-mul-le_self (2 * scale * part + whole) (2 * whole);
  above = λ scale part whole h.
      omega (arith, lt-div-mul-add {a = 2 * scale * part + whole} {b = 2 * whole} (omega arith));
}

-- Three levels, of which two round down and one up.
abbrev levels : List (String × ℕ)
levels = ("ERROR", 1) ∷ ("INFO", 2) ∷ ("CRITICAL", 0) ∷ []

abbrev chart : LevelChart
chart = record { pie = map slice levels; legend = shares_of rounded 3 levels }

distribution-levels : distribution rounded levels ≡ some chart
unfolding distribution total
distribution-levels = refl

distribution_lem_example :
    (chart.pie ≡ map slice_of chart.legend)
    × (2 * sum_percentages chart.legend ≤ 2000 + length levels)
    × (2000 ≤ 2 * sum_percentages chart.legend + length levels)
distribution_lem_example =
    distribution_lem rounded rounded-IsNearest levels chart distribution-levels

abbrev analytics : LogAnalytics
analytics = record {
  project_id = "p1";
  total_logs = 3;
  logs_by_level = levels;
  logs_by_service = ("billing", 3) ∷ [];
  errors_per_minute = [];
}

all_counted : total analytics.logs_by_level ≡ analytics.total_logs
unfolding total
all_counted = refl

error_rate-legend_example :
    let legend = shares_of rounded (total levels) levels in
    let sum = percentage_at "ERROR" legend + percentage_at "CRITICAL" legend in
    (error_rate rounded (some analytics) ≤ 10000)
    × (2 * error_rate rounded (some analytics) ≤ 20 * sum + 21)
    × (20 * sum ≤ 2 * error_rate rounded (some analytics) + 21)
error_rate-legend_example =
    error_rate-legend rounded rounded-IsNearest analytics (omega arith) all_counted

abbrev as_given : String → String
as_given t = t

overviews_lem_example :
    let dashboard_of = dashboard rounded as_given as_given (some (project "p1")) in
    let analytics_of = analytics_overview rounded as_given as_given (some (project "p1")) in
    let counts = 3 ∷ 1 ∷ warnings analytics ∷ errors analytics ∷ [] in
    let charts = charts_of rounded as_given as_given in
    Holds (dashboard_of none true none false) (λ v. (v.stats ≡ skeletons 4) × (v.charts ≡ none))
    × Holds (analytics_of none true) (λ v. (v.stats ≡ skeletons 5) × (v.charts ≡ none))
    × Holds
        (dashboard_of (some analytics) false none false)
        (λ v. IsShown v.stats counts × (v.charts ≡ charts (some analytics)))
    × Holds (analytics_of (some analytics) false) (λ v.
      IsShown v.stats (counts ++ 3 ∷ [])
      × (v.charts ≡ charts (some analytics))
      × (v.banner ≡ some (error_rate rounded (some analytics), errors analytics, 3)))
    × Holds
        (dashboard_of none false none false)
        (λ v. (numbers v.stats ≡ plain 0 ∷ plain 0 ∷ plain 0 ∷ plain 0 ∷ []) × (v.charts ≡ none))
    × Holds (analytics_of none false) (λ v.
      (numbers v.stats ≡ plain 0 ∷ plain 0 ∷ plain 0 ∷ plain 0 ∷ plain 0 ∷ []) × (v.charts ≡ none))
overviews_lem_example =
    overviews_lem rounded as_given as_given rounded-IsNearest (project "p1") analytics none none
      false
