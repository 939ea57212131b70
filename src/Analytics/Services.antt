-- ===== src/Analytics/Services.antt =====
-- frontend/src/components/dashboard/service-breakdown-chart.tsx: the bars of the services, the highest
-- first. `sort` with a comparison by subtraction is the stable sort that the language promises.
use mathlib.Core.List.{Perm}
use mathlib.Core.List.Perm
use org_log.Prelude.{
  ℕ, ◌≤◌, ◌≡◌, refl, String, List, [], ◌∷◌, All, select, map, ltb, ◌==◌, if◌then◌else◌, arith,
  Bool-cases, inl, inr, ltb→lt,
}

pub record Bar : Type 0 where
  pub name : String
  pub value : ℕ

-- `.map(([name, value]) => ({ name, value }))`
abbrev pub bar_of : String × ℕ → Bar
bar_of e = record { name = e.0; value = e.1 }

-- Puts a bar before the first that is not higher.
unfoldable pub insert : Bar → List Bar → List Bar
insert b [] = b ∷ []
insert b (c ∷ bars) =
    let rest = insert b bars in if ltb b.value c.value then c ∷ rest else b ∷ c ∷ bars

-- `.sort((a, b) => b.value - a.value)`
unfoldable pub sort : List Bar → List Bar
sort [] = []
sort (b ∷ bars) = insert b (sort bars)

unfoldable pub chart_data : List (String × ℕ) → List Bar
unfolding sort
chart_data entries = sort (map bar_of entries)

pub data Chart : Type 0 where
  no_service_data : Chart
  drawn : List Bar → Chart

unfoldable pub chart : List (String × ℕ) → Chart
unfolding chart_data
chart entries = elim (chart_data entries) [ [] ↦ no_service_data | b ∷ rest ↦ drawn (b ∷ rest) ]

-- Each bar is at least as high as all that come after it.
abbrev pub IsDescending : List Bar → Type 0
IsDescending [] = Unit {0}
IsDescending (b ∷ bars) = All (λ c. c.value ≤ b.value) bars × IsDescending bars

insert-All :
    (n : ℕ) (b : Bar) (bars : List Bar)
    → b.value ≤ n
    → All (λ c. c.value ≤ n) bars
    → All (λ c. c.value ≤ n) (insert b bars)
unfolding insert
insert-All n b [] h k = (h, tt)
insert-All n b (c ∷ bars) h k = ground (arith, insert-All n b bars)

All-weaken :
    (m n : ℕ) (bars : List Bar) → m ≤ n → All (λ c. c.value ≤ m) bars → All (λ c. c.value ≤ n) bars
All-weaken m n [] h k = tt
All-weaken m n (c ∷ bars) h k = (omega (arith, k.0), All-weaken m n bars h k.1)

insert-IsDescending : (b : Bar) (bars : List Bar) → IsDescending bars → IsDescending (insert b bars)
unfolding insert
insert-IsDescending b [] h = (tt, tt)
insert-IsDescending b (c ∷ bars) h = elim (Bool-cases (ltb b.value c.value)) [
  | inl e ↦
      rw e (
        insert-All c.value b bars (omega (arith, ltb→lt _ _ e)) h.0,
        insert-IsDescending b bars h.1,
      )
  | inr e ↦
      let le : c.value ≤ b.value = ground arith in
      rw e ((le, All-weaken c.value b.value bars le h.0), h)
]

insert-perm : (b : Bar) (bars : List Bar) → Perm (insert b bars) (b ∷ bars)
unfolding insert
insert-perm b [] = Perm.rfl
insert-perm b (c ∷ bars) = elim (Bool-cases (ltb b.value c.value)) [
  | inl e ↦ rw e (Perm.trans (Perm.cons c (insert-perm b bars)) (Perm.swap b c bars))
  | inr e ↦ rw e Perm.rfl
]

-- A bar stays before those of its height, and the others keep their order.
insert-select :
    (n : ℕ) (b : Bar) (bars : List Bar)
    → select (λ c. c.value == n) (insert b bars) ≡ select (λ c. c.value == n) (b ∷ bars)
unfolding insert
insert-select n b [] = refl
insert-select n b (c ∷ bars) = ground (arith, insert-select n b bars)

sort-IsDescending : (bars : List Bar) → IsDescending (sort bars)
unfolding sort
sort-IsDescending [] = tt
sort-IsDescending (b ∷ bars) = insert-IsDescending b (sort bars) (sort-IsDescending bars)

sort-perm : (bars : List Bar) → Perm (sort bars) bars
unfolding sort
sort-perm [] = Perm.rfl
sort-perm (b ∷ bars) = Perm.trans (insert-perm b (sort bars)) (Perm.cons b (sort-perm bars))

sort-select :
    (n : ℕ) (bars : List Bar)
    → select (λ c. c.value == n) (sort bars) ≡ select (λ c. c.value == n) bars
unfolding sort
sort-select n [] = refl
sort-select n (b ∷ bars) = ground (arith, insert-select n b (sort bars), sort-select n bars)

-- The bars are the services with their numbers, rearranged so that none is lower than one that comes
-- after it, and so that those of one height keep their order.
pub chart_data_lem :
    (entries : List (String × ℕ))
    → Perm (chart_data entries) (map bar_of entries)
      × IsDescending (chart_data entries)
      × ((n : ℕ)
          → select (λ c. c.value == n) (chart_data entries)
            ≡ select (λ c. c.value == n) (map bar_of entries))
unfolding chart_data
chart_data_lem entries =
    let given = map bar_of entries in
    (sort-perm given, sort-IsDescending given, λ n. sort-select n given)
