-- ===== src/Analytics/Shares.antt =====
-- frontend/src/components/dashboard/level-distribution-chart.tsx: the levels with their percentages.
use native.Mathlib.Nat.{le_of_mul-le-mul_left}
use org_log.Prelude.{
  lt→ltb, refl, ap, map, str_eq, or_else, Bool-cases, inl, inr, ℕ, ◌+◌, ◌*◌, ◌≤◌, ◌<◌, ◌≡◌, String,
  Option, none, some, List, [], ◌∷◌, length, ltb, ◌==◌, arith, if◌then◌else◌,
}
use org_log.Analytics.{IsNearest}

-- `chartData.reduce((sum, item) => sum + item.value, 0)`
unfoldable pub total : List (String × ℕ) → ℕ
total [] = 0
total ((name, value) ∷ entries) = value + total entries

-- `LEVEL_COLORS[name]`
unfoldable pub level_color : String → Option String
level_color name =
    if str_eq name "DEBUG"
    then some "#94a3b8"
    else if str_eq name "INFO"
    then some "#3b82f6"
    else if str_eq name "WARNING"
    then some "#f59e0b"
    else if str_eq name "ERROR"
    then some "#ef4444"
    else if str_eq name "CRITICAL"
    then some "#ec4899"
    else none

-- A sector of the pie.
pub record Slice : Type 0 where
  pub name : String
  pub value : ℕ
  pub fill : String

abbrev pub slice : String × ℕ → Slice
slice e = record { name = e.0; value = e.1; fill = or_else (level_color e.0) "#3b82f6" }

-- A row of the legend, with the colour of its dot, if any, and its percentage in tenths.
pub record Share : Type 0 where
  pub dot : Option String
  pub name : String
  pub value : ℕ
  pub percentage : ℕ

-- `formatter` of the tooltip, for a number as printed.
abbrev pub tooltip : String → List String
tooltip value = value ∷ "Count" ∷ []

pub record LevelChart : Type 0 where
  pub pie : List Slice
  pub legend : List Share

module _ (to_fixed : ℕ → ℕ → ℕ → ℕ) where
  unfoldable pub shares_of : ℕ → List (String × ℕ) → List Share
  shares_of whole [] = []
  shares_of whole ((name, value) ∷ entries) =
      record {
        dot = level_color name;
        name = name;
        value = value;
        percentage = if ltb 0 whole then to_fixed 1000 value whole else 0;
      }
      ∷ shares_of whole entries

  -- `none`: "No data available".
  unfoldable pub distribution : List (String × ℕ) → Option LevelChart
  unfolding total shares_of
  distribution entries =
      if total entries == 0
      then none
      else some (record { pie = map slice entries; legend = shares_of (total entries) entries })

pub sum_percentages : List Share → ℕ
sum_percentages [] = 0
sum_percentages (s ∷ shares) = s.percentage + sum_percentages shares

-- The sector of a row, in the colour of its dot if it has one.
abbrev pub slice_of : Share → Slice
slice_of s = record { name = s.name; value = s.value; fill = or_else s.dot "#3b82f6" }

map-slice_of :
    (to_fixed : ℕ → ℕ → ℕ → ℕ) (whole : ℕ) (entries : List (String × ℕ))
    → map slice entries ≡ map slice_of (shares_of to_fixed whole entries)
unfolding shares_of
map-slice_of to_fixed whole [] = refl
map-slice_of to_fixed whole ((name, value) ∷ entries) =
    ap (λ ss. slice (name, value) ∷ ss) (map-slice_of to_fixed whole entries)

module _ (to_fixed : ℕ → ℕ → ℕ → ℕ) (nearest : IsNearest to_fixed) where
  sum_percentages_bounds :
      (whole : ℕ) (entries : List (String × ℕ))
      → 0 < whole
      → (sum_percentages (shares_of to_fixed whole entries) * (2 * whole)
          ≤ 2000 * total entries + length entries * whole)
        × (2000 * total entries
            ≤ sum_percentages (shares_of to_fixed whole entries) * (2 * whole)
              + length entries * whole)
  unfolding sum_percentages shares_of total
  sum_percentages_bounds whole [] h = (omega arith, omega arith)
  sum_percentages_bounds whole ((name, value) ∷ entries) h =
      let (low, high) = sum_percentages_bounds whole entries h in
      let a = nearest.below 1000 value whole h in
      let b = nearest.above 1000 value whole h in
      let positive = lt→ltb 0 whole h in rw positive (omega arith, omega arith)

  -- The sectors of the pie and the rows of the legend are the same levels with the same numbers, in the
  -- same order, each sector in the colour of its dot, or in the blue of INFO where the dot has none; and
  -- the percentages of the legend add up to 100.0, up to half a tenth for each level.
  pub distribution_lem :
      (entries : List (String × ℕ)) (c : LevelChart)
      → distribution to_fixed entries ≡ some c
      → (c.pie ≡ map slice_of c.legend)
        × (2 * sum_percentages c.legend ≤ 2000 + length entries)
        × (2000 ≤ 2 * sum_percentages c.legend + length entries)
  unfolding distribution
  distribution_lem entries c e = elim (Bool-cases (total entries == 0)) [
    | inl z ↦ absurd (ground arith)
    | inr z ↦
        let positive : 0 < total entries = ground arith in
        let (low, high) = sum_percentages_bounds (total entries) entries positive in
        let same : c ≡ record {
          pie = map slice entries;
          legend = shares_of to_fixed (total entries) entries;
        } =
          ground arith in
        rw same (
          map-slice_of to_fixed (total entries) entries,
          le_of_mul-le-mul_left {k = total entries} (omega (arith, low)) positive,
          le_of_mul-le-mul_left {k = total entries} (omega (arith, high)) positive,
        )
  ]
