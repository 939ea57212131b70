-- ===== src/Analytics/Numbers.antt =====
-- frontend/src/lib/utils/format.ts, formatNumber: how the cards (stat-card.tsx) print a number. Tenths
-- of thousands and of millions are kept as numbers; the grouping of digits is left out.
use org_log.Prelude.{ℕ, ◌+◌, ◌*◌, ◌≤◌, ◌<◌, ◌≡◌, leb, arith, if◌then◌else◌}
use org_log.Analytics.{IsNearest}

-- `K` and `M` with the tenths before them.
pub data Shown : Type 0 where
  plain thousands millions : ℕ → Shown

module _ (to_fixed : ℕ → ℕ → ℕ → ℕ) where
  unfoldable pub format_number : ℕ → Shown
  format_number num =
      if leb 1000000 num
      then millions (to_fixed 10 num 1000000)
      else if leb 1000 num
      then thousands (to_fixed 10 num 1000)
      else plain num

-- The number that a reader takes from a card.
abbrev pub amount : Shown → ℕ
amount (plain n) = n
amount (thousands t) = t * 100
amount (millions t) = t * 100000

-- The worth of the last digit, where it is rounded.
abbrev pub unit : Shown → ℕ
unit (plain n) = 0
unit (thousands t) = 100
unit (millions t) = 100000

module _ (to_fixed : ℕ → ℕ → ℕ → ℕ) (nearest : IsNearest to_fixed) where
  -- A card is off by at most half of its last digit, and not at all below a thousand.
  pub format_number_lem :
      (num : ℕ)
      → (2 * amount (format_number to_fixed num) ≤ 2 * num + unit (format_number to_fixed num))
        × (2 * num ≤ 2 * amount (format_number to_fixed num) + unit (format_number to_fixed num))
  unfolding format_number
  format_number_lem num = ground (
    arith,
    nearest.below 10 num 1000000 (omega arith),
    nearest.above 10 num 1000000 (omega arith),
    nearest.below 10 num 1000 (omega arith),
    nearest.above 10 num 1000 (omega arith),
  )

  -- Between 999950 and a million a card prints 1000.0K.
  pub format_number_top :
      (num : ℕ) → 999950 < num → num < 1000000 → format_number to_fixed num ≡ thousands 10000
  unfolding format_number
  format_number_top num h k =
      let e : to_fixed 10 num 1000 ≡ 10000 =
        omega (
          arith,
          nearest.below 10 num 1000 (omega arith),
          nearest.above 10 num 1000 (omega arith),
        ) in
      ground arith
