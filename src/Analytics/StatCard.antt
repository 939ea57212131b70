-- ===== src/Analytics/StatCard.antt =====
-- frontend/src/components/dashboard/stat-card.tsx: the number of a card, its colours and its trend, a
-- whole number. `formatNumber` is Analytics.Numbers; the icon is left out.
use org_log.Prelude.{ℕ, String, Bool, false, Option, none, some, ltb, if◌then◌else◌}
use org_log.Analytics.{CardColor, blue, emerald, amber, red, violet, Card}
use org_log.Analytics.Numbers.{Shown, format_number}

pub data ℤ : Type 0 where
  pos negsuc : ℕ → ℤ

abbrev pub is_positive : ℤ → Bool
is_positive (pos n) = ltb 0 n
is_positive (negsuc n) = false

pub record Colors : Type 0 where
  pub bg : String
  pub icon : String
  pub accent : String

abbrev pub color_map : CardColor → Colors
color_map blue = record { bg = "bg-blue-50"; icon = "text-blue-600"; accent = "text-blue-600" }
color_map emerald = record {
  bg = "bg-emerald-50";
  icon = "text-emerald-600";
  accent = "text-emerald-600";
}
color_map amber = record { bg = "bg-amber-50"; icon = "text-amber-600"; accent = "text-amber-600" }
color_map red = record { bg = "bg-red-50"; icon = "text-red-600"; accent = "text-red-600" }
color_map violet = record {
  bg = "bg-violet-50";
  icon = "text-violet-600";
  accent = "text-violet-600";
}

pub record Trend : Type 0 where
  pub value : ℤ
  pub label : String

-- The line below the number: the sign in front, the number of percent and the label, with its class.
pub record TrendLine : Type 0 where
  pub sign : String
  pub value : ℤ
  pub label : String
  pub accent : String

pub record StatCard : Type 0 where
  pub title : String
  pub number : Shown
  pub trend : Option TrendLine
  pub bg : String
  pub icon : String

abbrev trend_line : Colors → Option Trend → Option TrendLine
trend_line c none = none
trend_line c (some t) = some (record {
  sign = if is_positive t.value then "+" else "";
  value = t.value;
  label = t.label;
  accent = c.accent;
})

-- `color = "blue"`
abbrev pub color_of : Option CardColor → CardColor
color_of none = blue
color_of (some c) = c

module _ (to_fixed : ℕ → ℕ → ℕ → ℕ) where
  unfoldable pub stat_card : String → ℕ → Option Trend → Option CardColor → StatCard
  unfolding format_number
  stat_card title value trend color =
      let colors = color_map (color_of color) in
      record {
        title = title;
        number = format_number to_fixed value;
        trend = trend_line colors trend;
        bg = colors.bg;
        icon = colors.icon;
      }

  -- A card of the pages, which have no trend.
  abbrev pub card_view : Card → StatCard
  card_view c = stat_card c.title c.value none (some c.color)
