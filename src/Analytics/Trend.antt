-- ===== src/Analytics/Trend.antt =====
-- frontend/src/components/dashboard/error-trend-chart.tsx: the points of the chart. The formatting of a
-- minute is a parameter.
use org_log.Prelude.{ℕ, String, List, [], ◌∷◌, map}
use org_log.Types.{ErrorPerMinute}

pub record Point : Type 0 where
  pub minute : String
  pub count : ℕ

pub data Trend : Type 0 where
  no_error_data : Trend
  points : List Point → Trend

module _ (format_minute_bucket : String → String) where
  abbrev pub point : ErrorPerMinute → Point
  point d = record { minute = format_minute_bucket d.minute; count = d.count }

  unfoldable pub error_trend : List ErrorPerMinute → Trend
  error_trend [] = no_error_data
  error_trend (d ∷ data_points) = points (map point (d ∷ data_points))
