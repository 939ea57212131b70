-- ===== src/Explorer/Paging.antt =====
-- The pages that the two buttons lead to.
use native.Mathlib.Nat.{le-div_iff_mul-le, mul-div_left}
use native.Mathlib.Decide.{dec_le}
use org_log.Prelude.{
  ℕ, zero, suc, ◌+◌, ◌-◌, ◌*◌, ◌/◌, ◌≤◌, ◌<◌, ◌≡◌, ◌↔◌, refl, subst, true, false, arith, ◌==◌,
  leb→le, le→leb,
}
use org_log.Explorer.Pagination.{Pagination, pagination, ceil_div}

-- A click on an enabled button, for a fixed total.
pub data Click (total limit : ℕ) : ℕ → ℕ → Type 0 where
  clicks_next :
      {o : ℕ}
      → (pagination total limit o).next_disabled ≡ false
      → Click total limit o (pagination total limit o).next
  clicks_previous :
      {o : ℕ}
      → (pagination total limit o).previous_disabled ≡ false
      → Click total limit o (pagination total limit o).previous

pub data Clicks (total limit o : ℕ) : ℕ → Type 0 where
  start : Clicks total limit o o
  click : {p q : ℕ} → Clicks total limit o p → Click total limit p q → Clicks total limit o q

-- A page that exists: page number `k`, from 0.
pub record IsPage (total limit k o : ℕ) : Type 0 where
  pub begins : o ≡ k * limit
  pub inside : o < total

page_number : (limit k : ℕ) → 0 < limit → k * limit / limit ≡ k
page_number limit k h = mul-div_left k h

last_page :
    (total limit k : ℕ)
    → 0 < limit
    → k * limit < total
    → (suc k ≤ ceil_div total limit)
      × ((suc k ≡ ceil_div total limit) → (total ≤ k * limit + limit))
      × ((total ≤ k * limit + limit) → suc k ≡ ceil_div total limit)
last_page total limit k h lt =
    let here = le-div_iff_mul-le {k = limit} {x = suc k} {y = total + limit - 1} h in
    let after = le-div_iff_mul-le {k = limit} {x = suc (suc k)} {y = total + limit - 1} h in
    let reached : suc k ≤ ceil_div total limit = here.1 (omega arith) in
    let more : k * limit + limit < total → suc (suc k) ≤ ceil_div total limit =
      λ m. after.1 (omega arith) in
    let none_more : suc (suc k) ≤ ceil_div total limit → k * limit + limit < total =
      λ m. omega (arith, after.0 m) in
    (
      reached,
      λ e. elim (dec_le total (k * limit + limit)) [
        | yes le ↦ le
        | no gt ↦ absurd (omega (arith, more (omega arith)))
      ],
      λ le. elim (dec_le (suc (suc k)) (ceil_div total limit)) [
        | yes m ↦ absurd (omega (arith, none_more m))
        | no m ↦ omega arith
      ],
    )

first_page : (limit k : ℕ) → 0 < limit → ((k * limit == 0) ≡ true) ↔ (k + 1 ≡ 1)
first_page limit zero h = (λ e. refl, λ e. ground arith)
first_page limit (suc k) h = (λ e. absurd (ground arith), λ e. absurd (omega arith))

-- What the pagination shows on page `k`: the number of that page, within the number of pages; at least one
-- item and at most `limit`, behind those of the pages before; "Previous" is disabled exactly on the
-- first page, and "Next" exactly on the last.
abbrev pub Shows : ℕ → ℕ → ℕ → Pagination → Type 0
Shows total limit k p =
    (p.current_page ≡ suc k)
    × (p.current_page ≤ p.total_pages)
    × (p.start_item ≡ k * limit + 1)
    × (p.start_item ≤ p.end_item)
    × (p.end_item ≤ k * limit + limit)
    × (p.end_item ≤ total)
    × ((p.previous_disabled ≡ true) ↔ (p.current_page ≡ 1))
    × ((p.next_disabled ≡ true) ↔ (p.current_page ≡ p.total_pages))

pagination-Shows :
    (total limit k o : ℕ)
    → 0 < limit
    → IsPage total limit k o
    → Shows total limit k (pagination total limit o)
unfolding pagination
pagination-Shows total limit k o h page =
    let (fits, to, from) = last_page total limit k h (omega (arith, page.begins)) in
    let number = page_number limit k h in
    rw (page.begins, number)
      (
        omega arith,
        omega (arith, fits),
        refl,
        omega (arith, page.begins),
        omega arith,
        omega arith,
        first_page limit k h,
        (
          λ e. omega (arith, from (leb→le total (k * limit + limit) e)),
          λ e. le→leb total (k * limit + limit) (to (omega arith)),
        ),
      )

Click-IsPage :
    {total limit o o' : ℕ}
    → 0 < limit
    → Click total limit o o'
    → (k : ℕ) × IsPage total limit k o
    → (k : ℕ) × IsPage total limit k o'
unfolding pagination
Click-IsPage h (clicks_next e) (k, page) =
    (suc k, record { begins = omega (arith, page.begins); inside = ground (arith, page.begins) })
Click-IsPage h (clicks_previous e) (zero, page) = absurd (ground (arith, page.begins))
Click-IsPage h (clicks_previous e) (suc k, page) =
    (k, record { begins = omega (arith, page.begins); inside = omega (arith, page.inside) })

Clicks-IsPage :
    {total limit o : ℕ}
    → 0 < limit
    → 0 < total
    → Clicks total limit 0 o
    → (k : ℕ) × IsPage total limit k o
Clicks-IsPage h t start = (0, record { begins = omega arith; inside = t })
Clicks-IsPage h t (click cs c) = Click-IsPage h c (Clicks-IsPage h t cs)

-- Clicks on "Next" reach each page that exists.
IsPage-Clicks :
    (total limit k o : ℕ) → 0 < limit → o ≡ k * limit → o < total → Clicks total limit 0 o
unfolding pagination
IsPage-Clicks total limit zero o h e lt =
    let none_before : 0 ≡ o = omega (arith, e) in subst (Clicks total limit 0) none_before start
IsPage-Clicks total limit (suc k) o h e lt =
    let after : k * limit + limit ≡ o = omega (arith, e) in
    subst (Clicks total limit 0) after (
      click (IsPage-Clicks total limit k (k * limit) h refl (omega arith))
        (clicks_next (ground (arith, after))))

-- From the first page of a result that is not empty, clicks on enabled buttons lead to exactly the
-- offsets of the pages that exist, multiples of `limit` below the total; and on each of them the
-- pagination shows that page.
pub Clicks-Shows :
    (total limit o : ℕ)
    → 0 < limit
    → 0 < total
    → Clicks total limit 0 o
      ↔ ((k : ℕ) × IsPage total limit k o × Shows total limit k (pagination total limit o))
Clicks-Shows total limit o h t = (
  λ cs. let (k, page) = Clicks-IsPage h t cs in (k, page, pagination-Shows total limit k o h page),
  λ (k, page, shown). IsPage-Clicks total limit k o h page.begins page.inside,
)
