-- ===== src/LiveTail/Bag.antt =====
-- The cards forget the order in which the messages came: they are a function of the bag of the
-- messages, a quotient of the lists.
use mathlib.Core.Quot
use mathlib.Core.Quot.{Quot, Quot-set}
use mathlib.Core.List.{Perm, Permᴰ, is_set}
use mathlib.Core.HLevel.{hedberg, Σ_set}
use mathlib.Core.Logic.{∥∥₁_elim}
use native.Mathlib.Nat.{ℕ_set}
use org_log.Prelude.{
  ℕ, ◌+◌, ◌≡◌, refl, sym, ap, ◌∙◌, String, List, [], ◌∷◌, str_eq, eq_iff, Bool-cases, inl, inr,
  arith,
}
use org_log.Types.{LiveLogMessage}
use org_log.LiveTail.{Counts, count_of, ordered, positive_counts, message_stats}
use org_log.LiveTail.Stats.{count_level, count_of-count_levels}

-- Two lists hold as many messages of every level.
abbrev SameLevels : List LiveLogMessage → List LiveLogMessage → Type 0
SameLevels ms ns = (level : String) → count_level level ms ≡ count_level level ns

abbrev pub Bag : Type 0
Bag = Quot SameLevels

SameLevels-cons :
    (m : LiveLogMessage) (ms ns : List LiveLogMessage)
    → SameLevels ms ns
    → SameLevels (m ∷ ms) (m ∷ ns)
unfolding count_level
SameLevels-cons m ms ns h level = ground (arith, h level)

put : LiveLogMessage → Bag → Bag
put m =
    Quot.lift Quot-set (λ ms. Quot.mk (m ∷ ms)) (λ ms ns h. Quot.sound (SameLevels-cons m ms ns h))

SameLevels-swap :
    (m n : LiveLogMessage) (ms : List LiveLogMessage) → SameLevels (m ∷ n ∷ ms) (n ∷ m ∷ ms)
unfolding count_level
SameLevels-swap m n ms level = ground arith

put_comm : (m n : LiveLogMessage) (b : Bag) → put m (put n b) ≡ put n (put m b)
unfolding put
put_comm m n = Quot.ind (λ b. Quot-set _ _) (λ ms. Quot.sound (SameLevels-swap m n ms))

-- The messages without their order.
bag : List LiveLogMessage → Bag
bag [] = Quot.mk []
bag (m ∷ ms) = put m (bag ms)

bag-permuted : {ms ns : List LiveLogMessage} → Permᴰ ms ns → bag ms ≡ bag ns
unfolding bag
bag-permuted Permᴰ.nil = refl
bag-permuted (Permᴰ.cons {a = m} {l₁ = ms} e p) = rw (← e) (ap (put m) (bag-permuted p))
bag-permuted (Permᴰ.swap {a = m} {b = n} {l = ms} e f) = rw (← e, ← f) (put_comm m n (bag ms))
bag-permuted (Permᴰ.trans p q) = bag-permuted p ∙ bag-permuted q

bag-mk : (ms : List LiveLogMessage) → bag ms ≡ Quot.mk ms
unfolding bag put
bag-mk [] = refl
bag-mk (m ∷ ms) = ap (put m) (bag-mk ms)

stats_congr :
    (c d : Counts) (levels : List String)
    → ((level : String) → count_of level c ≡ count_of level d)
    → positive_counts c levels ≡ positive_counts d levels
unfolding positive_counts
stats_congr c d [] h = refl
stats_congr c d (level ∷ levels) h = ground (arith, h level, stats_congr c d levels h)

message_stats-SameLevels :
    (ms ns : List LiveLogMessage) → SameLevels ms ns → message_stats ms ≡ message_stats ns
unfolding message_stats
message_stats-SameLevels ms ns h = stats_congr _ _ ordered (λ level.
    count_of-count_levels level ms []
    ∙ ap (λ n. count_of level [] + n) (h level)
    ∙ sym (count_of-count_levels level ns []))

String-discrete : Discrete String
String-discrete s t = elim (Bool-cases (str_eq s t)) [
  | inl e ↦ yes ((eq_iff s t).0 e)
  | inr e ↦ no (λ p. ground (arith, eq_iff s t))
]

Stats-set : IsSet (List (String × ℕ))
Stats-set = is_set (Σ_set (hedberg String-discrete) (λ _. ℕ_set))

-- The cards of a bag.
stats_of : Bag → List (String × ℕ)
stats_of = Quot.lift Stats-set message_stats message_stats-SameLevels

stats_of-bag : (ms : List LiveLogMessage) → stats_of (bag ms) ≡ message_stats ms
unfolding stats_of
stats_of-bag ms = ap stats_of (bag-mk ms)

-- The cards do not depend on the order in which the messages came.
pub message_stats-permuted :
    (ms ns : List LiveLogMessage) → Perm ms ns → message_stats ms ≡ message_stats ns
message_stats-permuted ms ns p =
    ∥∥₁_elim p (Stats-set _ _)
      (λ q. sym (stats_of-bag ms) ∙ ap stats_of (bag-permuted q) ∙ stats_of-bag ns)
