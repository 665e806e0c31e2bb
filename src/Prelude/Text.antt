-- ===== src/Prelude/Text.antt =====
-- Names are native texts that the program only compares: for equality, and for the order in which
-- `std::map` and `std::set` keep their keys.
pub mod Lists
pub mod Decimal
use Prim.Native.String.{String, compare}
use text.Mathlib.Text.{is_lt}
use text.Mathlib.TextPositions.{eq_refl}
use fimex.Prelude.{◌≡◌, Bool, true, false, List, [], ◌∷◌, ◌||◌}
pub use text.Mathlib.Text.{◌==◌ as str_eq}
pub use text.Mathlib.TextEquality.{eq_iff}

abbrev pub str_ltb : String → String → Bool
str_ltb s t = is_lt (compare s t)

pub str_eq_refl : (s : String) → str_eq s s ≡ true
str_eq_refl s = eq_refl s

-- std::find over a vector of names, as a test.
unfoldable pub contains : String → List String → Bool
contains s [] = false
contains s (t ∷ ts) = str_eq s t || contains s ts
