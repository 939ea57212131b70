-- ===== src/Analytics/Pages.antt =====
-- frontend/src/app/dashboard/page.tsx and frontend/src/app/dashboard/analytics/page.tsx as a whole: what
-- the two overviews show, through each state of their requests.
use org_log.Prelude.{
  ℕ, ◌+◌, ◌*◌, ◌≤◌, ◌≡◌, refl, String, Bool, true, false, Option, none, some, List, [], ◌∷◌, ◌++◌,
  length, map,
}
use org_log.Types.{LogAnalytics, LogListResponse, Project}
use org_log.Analytics.{
  IsNearest, Card, Cards, placeholders, cards, count_at, total_errors, total_warnings, error_rate,
  analytics_page, dashboard_page,
}
use org_log.Analytics.Numbers.{Shown, plain, amount, unit, format_number, format_number_lem}
use org_log.Analytics.Recent.{RecentLogs, recent_logs_table}
use org_log.Analytics.Services.{Chart, chart}
use org_log.Analytics.Shares.{LevelChart, distribution}
use org_log.Analytics.StatCard.{StatCard, stat_card, card_view}
use org_log.Analytics.Trend.{Trend, error_trend}

-- `if (!currentProject)`: the form for a first project.
pub data Page (A : Type 0) : Type 0 where
  no_project_selected : Page A
  content : A → Page A

pub data StatRow : Type 0 where
  skeletons : ℕ → StatRow
  stat_cards : List StatCard → StatRow

-- The charts that both pages have, wherever they stand.
pub record Charts : Type 0 where
  pub levels : Option LevelChart
  pub trend : Trend
  pub services : Chart

pub record DashboardView : Type 0 where
  pub stats : StatRow
  pub charts : Option Charts
  pub recent : Option RecentLogs

pub record AnalyticsView : Type 0 where
  pub stats : StatRow
  pub banner : Option (ℕ × ℕ × ℕ)
  pub charts : Option Charts

module _ (to_fixed : ℕ → ℕ → ℕ → ℕ) (format_timestamp_short : String → String)
    (format_minute_bucket : String → String) where
  abbrev pub stat_row : Cards → StatRow
  stat_row (placeholders n) = skeletons n
  stat_row (cards cs) = stat_cards (map (card_view to_fixed) cs)

  abbrev pub charts_of : Option LogAnalytics → Option Charts
  charts_of none = none
  charts_of (some a) = some (record {
    levels = distribution to_fixed a.logs_by_level;
    trend = error_trend format_minute_bucket a.errors_per_minute;
    services = chart a.logs_by_service;
  })

  unfoldable pub dashboard :
      Option Project
      → Option LogAnalytics
      → Bool
      → Option LogListResponse
      → Bool
      → Page DashboardView
  unfolding dashboard_page
  dashboard none a analytics_loading logs logs_loading = no_project_selected
  dashboard (some p) a analytics_loading logs logs_loading =
      let d = dashboard_page a analytics_loading logs logs_loading in
      content (record {
        stats = stat_row d.stats;
        charts = charts_of d.charts;
        recent = elim d.recent [
          | none ↦ none
          | some rows ↦ some (recent_logs_table format_timestamp_short rows)
        ];
      })

  unfoldable pub analytics_overview :
      Option Project → Option LogAnalytics → Bool → Page AnalyticsView
  unfolding analytics_page
  analytics_overview none a is_loading = no_project_selected
  analytics_overview (some p) a is_loading =
      let o = analytics_page to_fixed a is_loading in
      content (record { stats = stat_row o.stats; banner = o.banner; charts = charts_of o.charts })

-- A shown number is off by at most half of its last digit.
abbrev pub IsClose : Shown → ℕ → Type 0
IsClose s n = (2 * amount s ≤ 2 * n + unit s) × (2 * n ≤ 2 * amount s + unit s)

-- The cards show so many numbers, each of them closely.
abbrev pub Show : List StatCard → List ℕ → Type 0
Show [] [] = Unit {0}
Show (c ∷ cs) (n ∷ ns) = IsClose c.number n × Show cs ns
Show [] (n ∷ ns) = ⊥
Show (c ∷ cs) [] = ⊥

abbrev pub IsShown : StatRow → List ℕ → Type 0
IsShown (skeletons k) ns = ⊥
IsShown (stat_cards cs) ns = Show cs ns

-- What the content of a page is like.
abbrev pub Holds : {A : Type 0} → Page A → (A → Type 0) → Type 0
Holds no_project_selected P = ⊥
Holds (content v) P = P v

abbrev pub numbers : StatRow → List Shown
numbers (skeletons k) = []
numbers (stat_cards cs) = map (λ c. c.number) cs

abbrev pub warnings : LogAnalytics → ℕ
warnings a = count_at "WARNING" a.logs_by_level

abbrev pub errors : LogAnalytics → ℕ
errors a = count_at "ERROR" a.logs_by_level + count_at "CRITICAL" a.logs_by_level

module _ (to_fixed : ℕ → ℕ → ℕ → ℕ) (format_timestamp_short : String → String)
    (format_minute_bucket : String → String) (nearest : IsNearest to_fixed) where
  card-IsClose : (c : Card) → IsClose (card_view to_fixed c).number c.value
  unfolding stat_card
  card-IsClose c = format_number_lem to_fixed nearest c.value

  given : Cards → List Card
  given (placeholders n) = []
  given (cards cs) = cs

  cards-Show : (cs : List Card) → Show (map (card_view to_fixed) cs) (map (λ c. c.value) cs)
  cards-Show [] = tt
  cards-Show (c ∷ cs) = (card-IsClose c, cards-Show cs)

  -- With a current project. While the statistics are loading, both pages show grey boxes and no chart.
  -- Once they are there, the cards of both show the total, the number of services, the warnings,
  -- the errors with the critical ones and, on the second page, the number of levels, each off by at most
  -- half of the last digit that is shown, both pages have the same charts, and the banner has the
  -- exact numbers. If they could not be had, each card shows 0, as for a project without logs, and
  -- there is no chart.
  pub overviews_lem :
      (p : Project) (a : LogAnalytics) (o : Option LogAnalytics) (logs : Option LogListResponse)
      (b : Bool)
      → let dashboard_of =
          dashboard to_fixed format_timestamp_short format_minute_bucket (some p) in
        let analytics_of =
          analytics_overview to_fixed format_timestamp_short format_minute_bucket (some p) in
        let counts = a.total_logs ∷ length a.logs_by_service ∷ warnings a ∷ errors a ∷ [] in
        let charts = charts_of to_fixed format_timestamp_short format_minute_bucket in
        Holds (dashboard_of o true logs b) (λ v. (v.stats ≡ skeletons 4) × (v.charts ≡ none))
        × Holds (analytics_of o true) (λ v. (v.stats ≡ skeletons 5) × (v.charts ≡ none))
        × Holds
            (dashboard_of (some a) false logs b)
            (λ v. IsShown v.stats counts × (v.charts ≡ charts (some a)))
        × Holds (analytics_of (some a) false) (λ v.
          IsShown v.stats (counts ++ length a.logs_by_level ∷ [])
          × (v.charts ≡ charts (some a))
          × (v.banner ≡ some (error_rate to_fixed (some a), errors a, a.total_logs)))
        × Holds (dashboard_of none false logs b) (λ v.
          (numbers v.stats ≡ plain 0 ∷ plain 0 ∷ plain 0 ∷ plain 0 ∷ []) × (v.charts ≡ none))
        × Holds (analytics_of none false) (λ v.
          (numbers v.stats ≡ plain 0 ∷ plain 0 ∷ plain 0 ∷ plain 0 ∷ plain 0 ∷ [])
          × (v.charts ≡ none))
  unfolding dashboard dashboard_page analytics_overview analytics_page total_errors total_warnings
      count_at stat_card format_number given
  overviews_lem p a o logs b = (
    (refl, refl),
    (refl, refl),
    (cards-Show (given (dashboard_page (some a) false logs b).stats), refl),
    (cards-Show (given (analytics_page to_fixed (some a) false).stats), refl, refl),
    (refl, refl),
    (refl, refl),
  )
