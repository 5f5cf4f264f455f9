-- ===== src/Security/Headers.antt =====
-- The parts of a signature header: `split`, `trim` and the search for a part by its first letters,
-- as in src/security/hmac/verifier.ts.
use queue_forge.Base.{
  Bool, List, Option, Text, [], false, if◌then◌else◌, is_empty, is_prefix, leb, none, refl, some, ℕ,
  ◌&&◌, ◌++◌, ◌==◌, ◌||◌, ◌∷◌, ◌≡◌,
}

-- The white space and line ends of JavaScript.
unfoldable pub is_blank : ℕ → Bool
is_blank c =
    (leb 9 c && leb c 13)
    || (c == 32
        || (c == 160
            || (c == 5760
                || ((leb 8192 c && leb c 8202)
                    || (c == 8232
                        || (c == 8233
                            || (c == 8239 || (c == 8287 || (c == 12288 || c == 65279)))))))))

-- The text up to the first separator, and the parts after it.
cuts : ℕ → Text → Text × List Text
cuts sep [] = ([], [])
cuts sep (c ∷ cs) =
    let (first, rest) = cuts sep cs in if c == sep then ([], first ∷ rest) else (c ∷ first, rest)

unfoldable pub split : ℕ → Text → List Text
unfolding cuts
split sep s = let (first, rest) = cuts sep s in first ∷ rest

unfoldable pub trim_start : Text → Text
unfolding is_blank
trim_start [] = []
trim_start (c ∷ cs) = let rest = trim_start cs in if is_blank c then rest else c ∷ cs

unfoldable pub trim_end : Text → Text
unfolding is_blank
trim_end [] = []
trim_end (c ∷ cs) = let rest = trim_end cs in if is_blank c && is_empty rest then [] else c ∷ rest

unfoldable pub trim : Text → Text
unfolding trim_start trim_end
trim s = trim_end (trim_start s)

-- `parts.find(p => p.trim().startsWith(..))`.
unfoldable pub first_part : Text → List Text → Option Text
first_part start [] = none
first_part start (p ∷ ps) = if is_prefix start (trim p) then some p else first_part start ps

-- A text with no comma and no white space.
unfoldable pub IsPlain : Text → Type 0
IsPlain [] = Unit {0}
IsPlain (c ∷ cs) = ((c == 44) ≡ false) × (is_blank c ≡ false) × IsPlain cs

cuts-plain : (s : Text) → IsPlain s → cuts 44 s ≡ (s, [])
unfolding cuts IsPlain
cuts-plain [] h = refl
cuts-plain (c ∷ cs) h = rw (cuts-plain cs h.2, h.0) refl

cuts-plain_then : (s rest : Text) → IsPlain s → cuts 44 (s ++ 44 ∷ rest) ≡ (s, split 44 rest)
unfolding cuts split IsPlain
cuts-plain_then [] rest h = refl
cuts-plain_then (c ∷ cs) rest h = rw (cuts-plain_then cs rest h.2, h.0) refl

trim_end-plain : (s : Text) → IsPlain s → trim_end s ≡ s
unfolding trim_end IsPlain
trim_end-plain [] h = refl
trim_end-plain (c ∷ cs) h = rw (trim_end-plain cs h.2, h.1) refl

pub trim-plain : (s : Text) → IsPlain s → trim s ≡ s
unfolding trim trim_start trim_end IsPlain
trim-plain [] h = refl
trim-plain (c ∷ cs) h = rw h.1 (trim_end-plain (c ∷ cs) h)

-- The two parts of a header `a,b`.
pub split-two : (a b : Text) → IsPlain a → IsPlain b → split 44 (a ++ 44 ∷ b) ≡ a ∷ b ∷ []
unfolding split
split-two a b h k = rw (cuts-plain_then a b h) (rw (cuts-plain b k) refl)
