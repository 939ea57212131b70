-- ===== src/Controls.antt =====
-- The shared controls of frontend/src/components/ui that choose something: the options of select.tsx,
-- the dot of status-dot.tsx, the classes of badge.tsx and button.tsx. The list of the classes is what
-- is handed to `cn`, which joins them; an argument that is falsy is `none`.
pub mod Plain
use org_log.Prelude.{
  String, Bool, true, false, ◌&&◌, Option, none, some, List, [], ◌∷◌, truthy, str_eq, if◌then◌else◌,
}

pub record SelectOption : Type 0 where
  pub value : String
  pub label : String

-- A select with the option that is chosen.
pub record Select : Type 0 where
  pub options : List SelectOption
  pub value : String

-- The placeholder, if any, is the option with the empty value, before the others.
unfoldable pub select : String → List SelectOption → String → Select
select placeholder options value = record {
  options =
      if truthy placeholder then record { value = ""; label = placeholder } ∷ options else options;
  value = value;
}

abbrev pub level_option : String → SelectOption
level_option level = record { value = level; label = level }

-- `levelOptions`
abbrev pub level_options : List SelectOption
level_options =
    level_option "DEBUG"
    ∷ level_option "INFO"
    ∷ level_option "WARNING"
    ∷ level_option "ERROR"
    ∷ level_option "CRITICAL"
    ∷ []

pub data Dot : Type 0 where
  online warning offline : Dot

abbrev pub is_online : Dot → Bool
is_online online = true
is_online warning = false
is_online offline = false

-- `statusColors`
abbrev pub status_color : Dot → String
status_color online = "bg-emerald-500"
status_color warning = "bg-amber-500"
status_color offline = "bg-slate-400"

-- `pings`: the dot has a second one that pulses.
pub record StatusDot : Type 0 where
  pub color : String
  pub pings : Bool

unfoldable pub status_dot : Dot → Bool → StatusDot
status_dot status pulse = record { color = status_color status; pings = pulse && is_online status }

-- `levelStyles[level]`, undefined for a level that it does not name.
unfoldable pub level_style : String → Option String
level_style level =
    if str_eq level "DEBUG"
    then some "bg-slate-100 text-slate-600 border-slate-200"
    else if str_eq level "INFO"
    then some "bg-blue-50 text-blue-700 border-blue-200"
    else if str_eq level "WARNING"
    then some "bg-amber-50 text-amber-700 border-amber-200"
    else if str_eq level "ERROR"
    then some "bg-red-50 text-red-600 border-red-200"
    else if str_eq level "CRITICAL"
    then some "bg-pink-50 text-pink-700 border-pink-200"
    else none

pub data BadgeVariant : Type 0 where
  plain outline level : BadgeVariant

abbrev badge_style : BadgeVariant → Option String → List (Option String)
badge_style plain l = some "bg-blue-50 text-blue-700 border-blue-200" ∷ none ∷ none ∷ []
badge_style outline l = none ∷ some "bg-transparent text-slate-600 border-slate-300" ∷ none ∷ []
badge_style level none = none ∷ none ∷ none ∷ []
badge_style level (some l) = none ∷ none ∷ (if truthy l then level_style l else none) ∷ []

-- The classes of a badge, but for the one that its user adds.
unfoldable pub badge : BadgeVariant → Option String → List (Option String)
badge variant l =
    some
      "inline-flex items-center rounded-md px-2 py-0.5 text-xs font-semibold border transition-colors"
    ∷ badge_style variant l

pub data ButtonVariant : Type 0 where
  primary secondary ghost danger outlined : ButtonVariant

pub data ButtonSize : Type 0 where
  sm md lg icon : ButtonSize

-- `variants`
abbrev pub button_style : ButtonVariant → String
button_style primary = "bg-blue-600 text-white hover:bg-blue-700 active:bg-blue-800 shadow-sm"
button_style secondary = "bg-slate-100 text-slate-700 hover:bg-slate-200 active:bg-slate-300"
button_style ghost = "text-slate-600 hover:bg-slate-100 active:bg-slate-200"
button_style danger = "bg-red-600 text-white hover:bg-red-700 active:bg-red-800"
button_style outlined =
    "border border-slate-300 text-slate-700 hover:bg-slate-50 active:bg-slate-100"

-- `sizes`
abbrev pub button_size : ButtonSize → String
button_size sm = "h-8 px-3 text-xs rounded-lg gap-1.5"
button_size md = "h-9 px-4 text-sm rounded-lg gap-2"
button_size lg = "h-11 px-6 text-sm rounded-lg gap-2"
button_size icon = "h-9 w-9 rounded-lg"

-- The variant and the size have defaults.
unfoldable pub button : Option ButtonVariant → Option ButtonSize → List String
button variant size =
    "inline-flex items-center justify-center font-medium transition-all duration-150"
    ∷ "focus-visible:outline-none focus-visible:ring-2 focus-visible:ring-blue-500 focus-visible:ring-offset-2"
    ∷ "disabled:opacity-50 disabled:pointer-events-none"
    ∷ button_style (elim variant [ none ↦ primary | some v ↦ v ])
    ∷ button_size (elim size [ none ↦ md | some z ↦ z ])
    ∷ []
