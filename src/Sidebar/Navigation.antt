-- ===== src/Sidebar/Navigation.antt =====
-- The links of the sidebar: which one is marked for a path, and the badge of the live tail.
use Prim.Native.Char.{Char, code}
use org_log.Prelude.{
  ℕ, ◌≤◌, map, ◌↔◌, ◌≡◌, ◌⊎◌, inl, inr, refl, String, Bool, true, false, not, ◌&&◌, Option, none,
  some, List, [], ◌∷◌, length, select, ltb, ◌==◌, eq_iff, str_eq, arith, if◌then◌else◌,
}
use org_log.Config.{NavItem, navigation}
use org_log.Live.{LiveLogs}

-- `text.startsWith(start)`
unfoldable pub starts_with : String → String → Bool
starts_with String.[] text = true
starts_with (String.◌∷◌ c start) String.[] = false
starts_with (String.◌∷◌ c start) (String.◌∷◌ d text) = (code c == code d) && starts_with start text

unfoldable pub is_active : String → NavItem → Bool
is_active pathname item =
    if str_eq item.href "/dashboard"
    then str_eq pathname "/dashboard"
    else starts_with item.href pathname

-- `dot`: the mark of an open connection. `badge`: the number of the messages.
pub record NavLink : Type 0 where
  pub item : NavItem
  pub is_marked : Bool
  pub dot : Bool
  pub badge : Option ℕ

unfoldable pub link : String → Bool → LiveLogs → NavItem → NavLink
unfolding is_active
link pathname collapsed live item = record {
  item = item;
  is_marked = is_active pathname item;
  dot = str_eq item.href "/dashboard/live" && live.is_connected;
  badge =
      if str_eq item.href "/dashboard/live" && not collapsed && ltb 0 (length live.messages)
      then some (length live.messages)
      else none;
}

-- The links under "Platform", from the top.
unfoldable pub links : String → Bool → LiveLogs → List NavLink
unfolding link
links pathname collapsed live = map (link pathname collapsed live) navigation

starts_with-cons :
    (c d : Char) (a text : String)
    → (starts_with (String.◌∷◌ c a) (String.◌∷◌ d text) ≡ true)
      ↔ ((code c ≡ code d) × (starts_with a text ≡ true))
unfolding starts_with
starts_with-cons c d a text = ground arith

-- Two starts of one text: the one is a start of the other.
starts_with_comparable :
    (a b text : String)
    → starts_with a text ≡ true
    → starts_with b text ≡ true
    → (starts_with a b ≡ true) ⊎ (starts_with b a ≡ true)
unfolding starts_with
starts_with_comparable String.[] b text h k = inl refl
starts_with_comparable (String.◌∷◌ c a) String.[] text h k = inr refl
starts_with_comparable (String.◌∷◌ c a) (String.◌∷◌ d b) String.[] h k = absurd (cc h)
starts_with_comparable (String.◌∷◌ c a) (String.◌∷◌ d b) (String.◌∷◌ e text) h k =
    let (p, h') = (starts_with-cons c e a text).0 h in
    let (q, k') = (starts_with-cons d e b text).0 k in
    elim (starts_with_comparable a b text h' k') [
      | inl r ↦ inl ((starts_with-cons c d a b).1 (omega arith, r))
      | inr r ↦ inr ((starts_with-cons d c b a).1 (omega arith, r))
    ]

starts_with_apart :
    (a b text : String)
    → starts_with a b ≡ false
    → starts_with b a ≡ false
    → (starts_with a text && starts_with b text) ≡ false
starts_with_apart a b text h k = ground (arith, starts_with_comparable a b text)

logs_live_analytics :
    (text : String)
    → ((starts_with "/dashboard/logs" text && starts_with "/dashboard/live" text) ≡ false)
      × ((starts_with "/dashboard/logs" text && starts_with "/dashboard/analytics" text) ≡ false)
      × ((starts_with "/dashboard/live" text && starts_with "/dashboard/analytics" text) ≡ false)
unfolding starts_with
logs_live_analytics text = (
  starts_with_apart "/dashboard/logs" "/dashboard/live" text refl refl,
  starts_with_apart "/dashboard/logs" "/dashboard/analytics" text refl refl,
  starts_with_apart "/dashboard/live" "/dashboard/analytics" text refl refl,
)

dashboard_only :
    (text : String)
    → str_eq text "/dashboard" ≡ true
    → (starts_with "/dashboard/logs" text ≡ false)
      × (starts_with "/dashboard/live" text ≡ false)
      × (starts_with "/dashboard/analytics" text ≡ false)
unfolding starts_with
dashboard_only text e = rw ((eq_iff text "/dashboard").0 e) (refl, refl, refl)

-- At every path at most one link is marked, on the dashboard exactly the first one.
pub links_lem :
    (pathname : String) (collapsed : Bool) (live : LiveLogs)
    → (length (select (λ l. l.is_marked) (links pathname collapsed live)) ≤ 1)
      × (select (λ l. l.is_marked) (links "/dashboard" collapsed live)
          ≡ link "/dashboard" collapsed live (record { label = "Dashboard"; href = "/dashboard" })
            ∷ [])
unfolding links link is_active starts_with
links_lem pathname collapsed live = (at_most_one, refl)
  where
    at_most_one : length (select (λ l. l.is_marked) (links pathname collapsed live)) ≤ 1
    at_most_one = ground (arith, logs_live_analytics pathname, dashboard_only pathname)
