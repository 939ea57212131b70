-- ===== src/LiveTail/Stats.antt =====
-- The numbers on the cards are those of the messages in the buffer.
use org_log.Prelude.{
  ℕ, suc, ◌+◌, ◌<◌, ◌≡◌, ◌↔◌, inl, inr, refl, sym, ◌∙◌, String, List, [], ◌∷◌, length, select,
  str_eq, truthy, if◌then◌else◌, arith, eq_iff, Bool-cases, Has, All,
}
use org_log.Types.{LiveLogMessage}
use org_log.LiveTail.{
  Counts, count_of, bump, count_levels, ordered, positive_counts, message_stats, filtered_messages,
}

-- How many messages have a level.
unfoldable pub count_level : String → List LiveLogMessage → ℕ
count_level level [] = 0
count_level level (m ∷ ms) =
    let rest = count_level level ms in if str_eq m.level level then suc rest else rest

count_of-bump :
    (level l : String) (counts : Counts)
    → count_of level (bump l counts)
      ≡ (if str_eq l level then count_of level counts + 1 else count_of level counts)
unfolding count_of bump
count_of-bump level l [] = ground arith
count_of-bump level l ((k, n) ∷ counts) =
    ground (arith, eq_iff k l, eq_iff l level, eq_iff k level, count_of-bump level l counts)

pub count_of-count_levels :
    (level : String) (ms : List LiveLogMessage) (counts : Counts)
    → count_of level (count_levels ms counts) ≡ count_of level counts + count_level level ms
unfolding count_levels count_level
count_of-count_levels level [] counts = omega arith
count_of-count_levels level (m ∷ ms) counts = ground (
  arith,
  count_of-count_levels level ms (bump m.level counts),
  count_of-bump level m.level counts,
)

mem-positive_counts :
    (level : String) (n : ℕ) (counts : Counts) (levels : List String)
    → Has (level, n) (positive_counts counts levels)
      ↔ (Has level levels × (count_of level counts ≡ n) × (0 < n))
unfolding positive_counts
mem-positive_counts level n counts [] = (λ h. absurd h, λ h. absurd h.0)
mem-positive_counts level n counts (l ∷ levels) =
    grind (arith, mem-positive_counts level n counts levels)

length-filtered_messages :
    (level : String) (ms : List LiveLogMessage)
    → length (select (λ m. str_eq m.level level) ms) ≡ count_level level ms
unfolding count_level
length-filtered_messages level [] = refl
length-filtered_messages level (m ∷ ms) = ground (arith, length-filtered_messages level ms)

-- The cards are exactly those of the five levels that some message has, each with the number of the
-- messages of that level; and the filter shows as many messages as have its level, or all if it is
-- empty.
pub mem-message_stats :
    (level : String) (n : ℕ) (ms : List LiveLogMessage)
    → (Has (level, n) (message_stats ms)
        ↔ (Has level ordered × (count_level level ms ≡ n) × (0 < n)))
      × (length (filtered_messages level ms)
          ≡ (if truthy level then count_level level ms else length ms))
unfolding message_stats filtered_messages
mem-message_stats level n ms =
    let (to, from) = mem-positive_counts level n (count_levels ms []) ordered in
    let e = counted in
    ((λ h. let (a, b, c) = to h in (a, sym e ∙ b, c), λ h. from (h.0, e ∙ h.1, h.2)), shown)
  where
    counted : count_of level (count_levels ms []) ≡ count_level level ms
    counted = count_of-count_levels level ms [] ∙ (unfold count_of in omega arith)

    shown :
        length (filtered_messages level ms)
        ≡ (if truthy level then count_level level ms else length ms)
    shown = elim (Bool-cases (truthy level)) [
      | inl t ↦ rw t (length-filtered_messages level ms)
      | inr t ↦ rw t refl
    ]

abbrev pub sum_counts : List (String × ℕ) → ℕ
sum_counts [] = 0
sum_counts ((l, n) ∷ counts) = n + sum_counts counts

-- What the loop would add up with every level of a list, also those that count nothing.
abbrev sum_levels : List LiveLogMessage → List String → ℕ
sum_levels ms [] = 0
sum_levels ms (l ∷ levels) = count_level l ms + sum_levels ms levels

sum_counts-positive_counts :
    (ms : List LiveLogMessage) (levels : List String)
    → sum_counts (positive_counts (count_levels ms []) levels) ≡ sum_levels ms levels
unfolding positive_counts count_of
sum_counts-positive_counts ms [] = refl
sum_counts-positive_counts ms (l ∷ levels) =
    ground (arith, sum_counts-positive_counts ms levels, count_of-count_levels l ms [])

-- How often a level stands in a list.
abbrev occurrences : String → List String → ℕ
occurrences level [] = 0
occurrences level (l ∷ levels) = (if str_eq level l then 1 else 0) + occurrences level levels

sum_levels-cons :
    (m : LiveLogMessage) (ms : List LiveLogMessage) (levels : List String)
    → sum_levels (m ∷ ms) levels ≡ occurrences m.level levels + sum_levels ms levels
unfolding count_level
sum_levels-cons m ms [] = omega arith
sum_levels-cons m ms (l ∷ levels) = ground (arith, sum_levels-cons m ms levels)

occurrences-ordered : (level : String) → Has level ordered → occurrences level ordered ≡ 1
occurrences-ordered level (inl e) = rw e refl
occurrences-ordered level (inr (inl e)) = rw e refl
occurrences-ordered level (inr (inr (inl e))) = rw e refl
occurrences-ordered level (inr (inr (inr (inl e)))) = rw e refl
occurrences-ordered level (inr (inr (inr (inr (inl e))))) = rw e refl
occurrences-ordered level (inr (inr (inr (inr (inr h))))) = absurd h

sum_levels-ordered :
    (ms : List LiveLogMessage)
    → All (λ m. Has m.level ordered) ms
    → sum_levels ms ordered ≡ length ms
unfolding count_level
sum_levels-ordered [] h = refl
sum_levels-ordered (m ∷ ms) h =
    sum_levels-cons m ms ordered
    ∙ (rw (occurrences-ordered m.level h.0, sum_levels-ordered ms h.1) (omega arith))

-- If every message has one of the five levels, the numbers on the cards add up to the number of the
-- messages.
pub sum_counts-message_stats :
    (ms : List LiveLogMessage)
    → All (λ m. Has m.level ordered) ms
    → sum_counts (message_stats ms) ≡ length ms
unfolding message_stats
sum_counts-message_stats ms h = sum_counts-positive_counts ms ordered ∙ sum_levels-ordered ms h
