-- ===== src/Sidebar/Account.antt =====
-- What frontend/src/components/layout/sidebar.tsx shows of the projects and of the user beside the
-- links. The initials are made of UTF-16 code units, so that here a text is the list of them;
-- `toUpperCase` is a parameter.
use org_log.Prelude.{
  ℕ, ◌≡◌, refl, String, Bool, true, false, not, ◌&&◌, Option, none, some, List, [], ◌∷◌, length,
  take, ◌==◌, or_else, if◌then◌else◌, Bool-cases, inl, inr, ap,
}
use org_log.Types.{Project, User}
use org_log.Sidebar.{Sidebar, Entry, entries}

abbrev pub Units : Type 0
Units = List ℕ

-- Puts a unit in front of the first part.
abbrev push : ℕ → List Units → List Units
push c [] = (c ∷ []) ∷ []
push c (part ∷ parts) = (c ∷ part) ∷ parts

-- `.split(" ")`
unfoldable pub split : Units → List Units
split [] = [] ∷ []
split (c ∷ cs) = let parts = split cs in if c == 32 then [] ∷ parts else push c parts

-- `.map((n) => n[0]).join("")`, where undefined joins as nothing.
unfoldable pub heads : List Units → Units
heads [] = []
heads ([] ∷ parts) = heads parts
heads ((c ∷ part) ∷ parts) = c ∷ heads parts

module _ (to_upper_case : Units → Units) where
  -- Without a user, or with an empty name, it is "U".
  unfoldable pub initials : Option Units → Units
  unfolding heads split
  initials none = 85 ∷ []
  initials (some []) = 85 ∷ []
  initials (some (c ∷ name)) = take 2 (to_upper_case (heads (split (c ∷ name))))

-- The units that are not spaces and stand after a space, or at the start of a text.
abbrev pub word_starts : Bool → Units → Units
word_starts at_start [] = []
word_starts at_start (c ∷ cs) =
    let inside = word_starts false cs in
    let outside = word_starts true cs in
    if c == 32 then outside else if at_start then c ∷ inside else inside

-- All parts but the first.
abbrev later : List Units → List Units
later [] = []
later (part ∷ parts) = parts

heads-push : (c : ℕ) (parts : List Units) → heads (push c parts) ≡ c ∷ heads (later parts)
unfolding heads
heads-push c [] = refl
heads-push c (part ∷ parts) = refl

later-push : (c : ℕ) (parts : List Units) → later (push c parts) ≡ later parts
later-push c [] = refl
later-push c (part ∷ parts) = refl

heads-split :
    (cs : Units)
    → (heads (split cs) ≡ word_starts true cs) × (heads (later (split cs)) ≡ word_starts false cs)
unfolding heads split
heads-split [] = (refl, refl)
heads-split (c ∷ cs) =
    let (all, rest) = heads-split cs in
    elim (Bool-cases (c == 32)) [
      | inl e ↦ rw e (all, all)
      | inr e ↦
          rw (e, heads-push c (split cs), later-push c (split cs)) (ap (λ us. c ∷ us) rest, rest)
    ]

-- The initials are "U" without a user or with an empty name; else they are the first two units, or
-- fewer, of what `toUpperCase` makes of the first units of the words of the name.
pub initials_lem :
    (to_upper_case : Units → Units) (c : ℕ) (name : Units)
    → (initials to_upper_case none ≡ 85 ∷ [])
      × (initials to_upper_case (some []) ≡ 85 ∷ [])
      × (initials to_upper_case (some (c ∷ name))
          ≡ take 2 (to_upper_case (word_starts true (c ∷ name))))
unfolding initials
initials_lem to_upper_case c name =
    (refl, refl, ap (λ us. take 2 (to_upper_case us)) (heads-split (c ∷ name)).0)

-- The selector of the projects: its label, the number of the projects with its plural, and the
-- entries if it is open.
pub record Selector : Type 0 where
  pub label : String
  pub projects : ℕ
  pub unit : String
  pub open_entries : Option (List Entry)

-- `user_menu`: the name and the email above "Sign out".
pub record Panels : Type 0 where
  pub selector : Option Selector
  pub project_icon : Option String
  pub user_menu : Option (Option User)
  pub user_line : Option (Option User)

abbrev project_name : Option Project → Option String
project_name none = none
project_name (some p) = some p.name

unfoldable pub panels : Sidebar → Panels
unfolding entries
panels s = record {
  selector =
      if s.collapsed
      then none
      else some (record {
        label = or_else (project_name s.projects.current_project) "Select project";
        projects = length s.projects.projects;
        unit = if length s.projects.projects == 1 then "project" else "projects";
        open_entries = if s.project_dropdown_open then some (entries s.projects) else none;
      });
  project_icon = if s.collapsed then project_name s.projects.current_project else none;
  user_menu = if s.user_dropdown_open && not s.collapsed then some s.session.user else none;
  user_line = if s.collapsed then none else some s.session.user;
}
