-- ===== src/Explorer/FilterForm.antt =====
-- frontend/src/components/logs/log-filters.tsx: the form of the filters, as it shows the state of the
-- page.
use org_log.Prelude.{
  ℕ, ◌≡◌, ◌↔◌, refl, ap, ◌∙◌, String, Bool, true, false, none, List, [], ◌∷◌, if◌then◌else◌, arith,
}
use org_log.Controls.{Select, select, level_options}
use org_log.Explorer.{
  Explorer, Field, search_field, level_field, service_field, start_field, end_field, initial,
  filter_change, clear_filters, page_change, has_active_filters, build_query,
}
use org_log.Explorer.Filters.{has_active_filters_lem}

-- `clear_button`: "Clear filters" is shown.
pub record FilterForm : Type 0 where
  pub search_text : String
  pub level : Select
  pub service : String
  pub start_time : String
  pub end_time : String
  pub clear_button : Bool

unfoldable pub filter_form : Explorer → FilterForm
unfolding select has_active_filters
filter_form s = record {
  search_text = s.search_text;
  level = select "All Levels" level_options s.level;
  service = s.service;
  start_time = s.start_time;
  end_time = s.end_time;
  clear_button = has_active_filters s;
}

-- The text that an input shows.
abbrev pub shown : Field → FilterForm → String
shown search_field f = f.search_text
shown level_field f = f.level.value
shown service_field f = f.service
shown start_field f = f.start_time
shown end_field f = f.end_time

abbrev pub same_field : Field → Field → Bool
same_field search_field search_field = true
same_field level_field level_field = true
same_field service_field service_field = true
same_field start_field start_field = true
same_field end_field end_field = true
same_field _ _ = false

shown-filter_change :
    (f g : Field) (v : String) (s : Explorer)
    → shown g (filter_form (filter_change f v s))
      ≡ (if same_field f g then v else shown g (filter_form s))
unfolding filter_form filter_change select
shown-filter_change _ _ v s = ground arith

-- What the user does to the filters.
pub data Op : Type 0 where
  changes : Field → String → Op
  turns_page : ℕ → Op
  clears : Op

pub apply : Op → Explorer → Explorer
apply (changes f v) s = filter_change f v s
apply (turns_page offset) s = page_change offset s
apply clears s = clear_filters s

pub apply_all : List Op → Explorer → Explorer
apply_all [] s = s
apply_all (o ∷ os) s = apply_all os (apply o s)

-- What was typed last into a field since the last clear, if anything was, and else a given text.
abbrev pub last_typed : Field → List Op → String → String
last_typed g [] v = v
last_typed g (changes f w ∷ os) v = last_typed g os (if same_field f g then w else v)
last_typed g (turns_page offset ∷ os) v = last_typed g os v
last_typed g (clears ∷ os) v = last_typed g os ""

shown-page_change :
    (g : Field) (n : ℕ) (s : Explorer)
    → shown g (filter_form (page_change n s)) ≡ shown g (filter_form s)
unfolding filter_form page_change select
shown-page_change _ n s = ground arith

shown-clear_filters : (g : Field) (s : Explorer) → shown g (filter_form (clear_filters s)) ≡ ""
unfolding filter_form clear_filters select
shown-clear_filters _ s = ground arith

shown-apply_all :
    (g : Field) (os : List Op) (s : Explorer)
    → shown g (filter_form (apply_all os s)) ≡ last_typed g os (shown g (filter_form s))
unfolding apply_all apply
shown-apply_all g [] s = refl
shown-apply_all g (changes f v ∷ os) s =
    shown-apply_all g os (filter_change f v s) ∙ ap (last_typed g os) (shown-filter_change f g v s)
shown-apply_all g (turns_page n ∷ os) s =
    shown-apply_all g os (page_change n s) ∙ ap (last_typed g os) (shown-page_change g n s)
shown-apply_all g (clears ∷ os) s =
    shown-apply_all g os (clear_filters s) ∙ ap (last_typed g os) (shown-clear_filters g s)

-- After any changes of the fields, page turns and clears, in any order, from the first state of the
-- page: every input shows what was typed last into it since the last clear, or nothing; and "Clear
-- filters" is shown exactly if some filter is sent to the server.
pub apply_all_lem :
    (to_iso : String → String) (project_id : String) (os : List Op)
    → let s = apply_all os initial in
      ((g : Field) → shown g (filter_form s) ≡ last_typed g os "")
      × (((filter_form s).clear_button ≡ false) ↔ (
          let q = build_query to_iso project_id s in
          (q.search_text ≡ none)
          × (q.level ≡ none)
          × (q.service ≡ none)
          × (q.start_time ≡ none)
          × (q.end_time ≡ none)))
unfolding filter_form
apply_all_lem to_iso project_id os = (
  λ g. shown-apply_all g os initial ∙ ap (last_typed g os) (blank g),
  (has_active_filters_lem to_iso project_id (apply_all os initial)).0,
)
  where
    blank : (g : Field) → shown g (filter_form initial) ≡ ""
    blank _ = ground arith
