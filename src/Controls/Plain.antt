-- ===== src/Controls/Plain.antt =====
-- The controls of frontend/src/components/ui that show what they are given: input.tsx, spinner.tsx,
-- empty-state.tsx, card.tsx and skeleton.tsx, as the classes that are handed to `cn` before those of
-- the user, and what stands inside.
use org_log.Prelude.{String, Bool, true, false, Option, none, some, List, [], ◌∷◌}

abbrev shared : List String
shared =
    "placeholder:text-slate-400"
    ∷ "focus:outline-none focus:ring-2 focus:ring-blue-500 focus:border-blue-500"
    ∷ "disabled:opacity-50 disabled:cursor-not-allowed" ∷ "transition-colors duration-150" ∷ []

-- An input with an icon leaves room for it at the left.
abbrev first_class : Bool → String
first_class true = "flex h-9 w-full rounded-lg border border-slate-300 bg-white pl-9 pr-3 text-sm"
first_class false = "flex h-9 w-full rounded-lg border border-slate-300 bg-white px-3 text-sm"

unfoldable pub input : Bool → List String
input has_icon = first_class has_icon ∷ shared

pub data SpinnerSize : Type 0 where
  sm md lg : SpinnerSize

-- `sizes`
abbrev pub spinner_size : SpinnerSize → String
spinner_size sm = "h-4 w-4 border-2"
spinner_size md = "h-6 w-6 border-2"
spinner_size lg = "h-8 w-8 border-3"

-- `size = "md"`
unfoldable pub spinner : Option SpinnerSize → List String
spinner size =
    "animate-spin rounded-full border-blue-600 border-t-transparent"
    ∷ spinner_size (elim size [ none ↦ md | some z ↦ z ])
    ∷ []

-- Without its icon; no caller gives an action.
pub record EmptyState : Type 0 where
  pub title : String
  pub description : String

-- The parts of a card.
pub data CardPart : Type 0 where
  card header title description body : CardPart

abbrev pub card_class : CardPart → String
card_class card =
    "rounded-xl border border-slate-200 bg-white shadow-sm transition-shadow hover:shadow-md"
card_class header = "px-6 pt-6 pb-2"
card_class title = "text-sm font-semibold text-slate-900"
card_class description = "text-xs text-slate-500 mt-0.5"
card_class body = "px-6 pb-6 pt-2"

abbrev pub skeleton_class : String
skeleton_class = "animate-pulse rounded-lg bg-slate-200"
