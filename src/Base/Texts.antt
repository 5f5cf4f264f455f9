-- ===== src/Base/Texts.antt =====
-- Texts as lists of code points, and JavaScript's case mappings on the ASCII letters.
use Prim.Native.Nat.{ℕ, zero, suc, ◌+◌, ◌-◌, ◌/◌, ◌%◌}
use Prim.Native.Char.{code}
use Prim.Native.String.{String}
use mathlib.Core.Path.{◌≡◌, refl}
use mathlib.Core.Bool.{Bool, true, false, ◌&&◌, ◌||◌}
use mathlib.Core.Option.{Option, none, some}
use mathlib.Core.List.{List, [], ◌∷◌, ◌++◌, map}
use native.Mathlib.Omega.{arith}
use queue_forge.Base.Tests.{ltb, leb, ◌==◌, if◌then◌else◌}

abbrev pub codes : String → List ℕ
codes String.[] = []
codes (String.◌∷◌ c s) = code c ∷ codes s

abbrev pub same_codes : List ℕ → List ℕ → Bool
same_codes [] [] = true
same_codes (x ∷ xs) (y ∷ ys) = (x == y) && same_codes xs ys
same_codes _ _ = false

abbrev upper_code : ℕ → ℕ
upper_code c = if leb b'a' c && leb c b'z' then c - 32 else c

abbrev lower_code : ℕ → ℕ
lower_code c = if leb b'A' c && leb c b'Z' then c + 32 else c

-- `toUpperCase` and `toLowerCase`.
abbrev pub upper : List ℕ → List ℕ
upper = map upper_code

abbrev pub lower : List ℕ → List ℕ
lower = map lower_code

abbrev pub is_prefix : List ℕ → List ℕ → Bool
is_prefix [] ys = true
is_prefix (x ∷ xs) [] = false
is_prefix (x ∷ xs) (y ∷ ys) = (x == y) && is_prefix xs ys

-- `text.includes(piece)`.
abbrev pub includes : List ℕ → List ℕ → Bool
includes [] piece = is_prefix piece []
includes (x ∷ xs) piece = is_prefix piece (x ∷ xs) || includes xs piece

pub upper_code-lower_code : (c : ℕ) → upper_code (lower_code c) ≡ upper_code c
upper_code-lower_code c = ground arith

-- The case of the letters is lost by `upper`.
pub upper-lower : (s : List ℕ) → upper (lower s) ≡ upper s
upper-lower [] = refl
upper-lower (c ∷ s) = simp (upper_code-lower_code, upper-lower s)

lower_code-lower_code : (c : ℕ) → lower_code (lower_code c) ≡ lower_code c
lower_code-lower_code c = ground arith

pub lower-lower : (s : List ℕ) → lower (lower s) ≡ lower s
lower-lower [] = refl
lower-lower (c ∷ s) = simp (lower_code-lower_code, lower-lower s)

-- A text of the program, by its code points.
abbrev pub Text : Type 0
Text = List ℕ

-- `a || b` of TypeScript, where `a` may be undefined or empty.
abbrev pub or_text : Option Text → Text → Text
or_text none d = d
or_text (some []) d = d
or_text (some (c ∷ s)) d = c ∷ s

abbrev pub is_empty : Text → Bool
is_empty [] = true
is_empty (c ∷ s) = false

pub same_codes→eq : (s t : Text) → same_codes s t ≡ true → s ≡ t
same_codes→eq [] [] h = refl
same_codes→eq [] (y ∷ t) h = cc
same_codes→eq (x ∷ s) [] h = cc
same_codes→eq (x ∷ s) (y ∷ t) h = ground (arith, same_codes→eq s t)

pub same_codes_refl : (s : Text) → same_codes s s ≡ true
same_codes_refl [] = refl
same_codes_refl (x ∷ s) = ground (arith, same_codes_refl s)

-- The decimal digits of a number; `suc n` rounds are enough for `n`.
digits_from : ℕ → ℕ → Text
digits_from zero n = []
digits_from (suc f) n =
    let rest = digits_from f (n / 10) in
    if ltb n 10 then (48 + n) ∷ [] else rest ++ (48 + n % 10) ∷ []

-- `${n}` of TypeScript, at a whole number.
unfoldable pub show_number : ℕ → Text
unfolding digits_from
show_number n = digits_from (suc n) n
