-- ===== src/Prelude/Texts.antt =====
-- Python strings: a list of code points where the program slices or walks a text.
use Prim.Native.Char.{code}
use Prim.Native.String.{String, compare}
use Prim.Native.Nat.{Ordering, ℕ, zero, suc}
use mathlib.Core.Bool.{Bool, true, false, false≢true, ◌||◌}
use mathlib.Core.List.{List, [], ◌∷◌}
use mathlib.Core.Option.{Option, none, some}
use chrome_chatgpt_data.Prelude.Tests.{if◌then◌else◌}
use text.Mathlib.Text.{◌==◌ as str_eq, is_eq}
use text.Mathlib.TextEquality.{path_by_compare}
use text.Mathlib.TextPositions.{eq_refl}
use mathlib.Core.Path.{◌≡◌, refl}

abbrev pub Text : Type 0
Text = List ℕ

abbrev pub codes : String → Text
codes String.[] = []
codes (String.◌∷◌ c s) = code c ∷ codes s

-- `column = 'value'` where the column may be NULL.
abbrev pub holds_str : Option String → String → Bool
holds_str none s = false
holds_str (some t) s = str_eq t s

-- A text where the code tests its truth: `None` and the empty text are false.
abbrev pub truthy : Option String → Option String
truthy none = none
truthy (some s) = if str_eq s "" then none else some s

abbrev pub text_in : String → List String → Bool
text_in s [] = false
text_in s (t ∷ ts) = str_eq s t || text_in s ts

-- `s[:n]`
abbrev pub first_chars : ℕ → String → String
first_chars zero s = String.[]
first_chars (suc n) String.[] = String.[]
first_chars (suc n) (String.◌∷◌ c s) = String.◌∷◌ c (first_chars n s)

abbrev pub truthy_text : Option Text → Option Text
truthy_text none = none
truthy_text (some []) = none
truthy_text (some (c ∷ cs)) = some (c ∷ cs)

is_eq_path : (o : Ordering) → is_eq o ≡ true → o ≡ Ordering.eq
is_eq_path Ordering.lt h = absurd (false≢true h)
is_eq_path Ordering.eq h = refl
is_eq_path Ordering.gt h = absurd (false≢true h)

-- Texts that test equal are equal, and each text tests equal to itself.
pub str_eq_path : (s t : String) → str_eq s t ≡ true → s ≡ t
str_eq_path s t h = path_by_compare s t (is_eq_path (compare s t) h)

pub str_eq_refl : (t : String) → str_eq t t ≡ true
str_eq_refl t = eq_refl t
