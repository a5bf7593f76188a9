-- ===== src/Prelude/Text.antt =====
-- Texts: Go strings are compared whole, joined and tested for emptiness.
use Prim.Native.String.{String}
use mathlib.Core.Bool.{Bool}
use text.Mathlib.Text.{◌==◌ as text_eq}
use Prim.Native.String

abbrev pub str_eq : String → String → Bool
str_eq s t = text_eq s t

-- `+` on strings
abbrev pub cat : String → String → String
cat s t = String.◌++◌ s t
