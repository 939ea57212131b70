-- ===== src/Prelude/Texts.antt =====
-- Tests on texts: `===` between strings, and the falsy empty string.
use Prim.Native.String.{String}
use mathlib.Core.Bool.{Bool, false, not}
use mathlib.Core.Option.{Option, none, some}
use text.Mathlib.Text.{◌==◌}
use org_log.Prelude.Tests.{if◌then◌else◌}

-- `s === t`
abbrev pub str_eq : String → String → Bool
str_eq s t = s == t

-- `!!s`
abbrev pub truthy : String → Bool
truthy s = not (s == "")

-- `o === t`, where `o` may be null or undefined.
abbrev pub opt_str_eq : Option String → String → Bool
opt_str_eq none t = false
opt_str_eq (some s) t = s == t

-- `o || d`
abbrev pub or_else : Option String → String → String
or_else none d = d
or_else (some s) d = if truthy s then s else d
