-- ===== src/Explorer/Pagination.antt =====
-- frontend/src/components/logs/log-pagination.tsx: what is shown, and what the two buttons do.
use org_log.Prelude.{ℕ, ◌+◌, ◌-◌, ◌/◌, min, Bool, leb, ◌==◌}

-- `Math.ceil(a / b)`
abbrev pub ceil_div : ℕ → ℕ → ℕ
ceil_div a b = (a + b - 1) / b

-- `previous` and `next` are the arguments of `onPageChange`; `-` stops at 0, as `Math.max(0, …)`.
pub record Pagination : Type 0 where
  pub current_page : ℕ
  pub total_pages : ℕ
  pub start_item : ℕ
  pub end_item : ℕ
  pub previous : ℕ
  pub previous_disabled : Bool
  pub next : ℕ
  pub next_disabled : Bool

unfoldable pub pagination : ℕ → ℕ → ℕ → Pagination
pagination total limit offset = record {
  current_page = offset / limit + 1;
  total_pages = ceil_div total limit;
  start_item = offset + 1;
  end_item = min (offset + limit) total;
  previous = offset - limit;
  previous_disabled = offset == 0;
  next = offset + limit;
  next_disabled = leb total (offset + limit);
}
