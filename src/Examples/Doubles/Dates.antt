-- ===== src/Examples/Doubles/Dates.antt =====
-- Dates by their digits in the places of an ISO date.

use queue_forge.Queue.Serializer.{Dates, has_shape, is_digit, is_iso_date, last_date}
use queue_forge.Base.{
  Bool-cases, Text, [], ap, arith, codes, if◌then◌else◌, inl, inr, refl, some, true, ℕ, ◌%◌, ◌*◌,
  ◌+◌, ◌-◌, ◌/◌, ◌<◌, ◌==◌, ◌∷◌, ◌≡◌, ◌≤◌,
}

-- The digits of a number in the places of a pattern, the last digit first.
fill : Text → ℕ → Text
fill [] t = []
fill (p ∷ ps) t =
    let rest = fill ps (if p == b'd' then t / 10 else t) in
    (if p == b'd' then 48 + t % 10 else p) ∷ rest

pub unfill : Text → Text → ℕ
unfill [] s = 0
unfill (p ∷ ps) [] = 0
unfill (p ∷ ps) (c ∷ cs) =
    let rest = unfill ps cs in if p == b'd' then (c - 48) + 10 * rest else rest

unfoldable below : Text → ℕ
below [] = 1
below (p ∷ ps) = let rest = below ps in if p == b'd' then 10 * rest else rest

unfill-fill : (ps : Text) (t : ℕ) → t < below ps → unfill ps (fill ps t) ≡ t
unfolding fill unfill below
unfill-fill [] t l = omega arith
unfill-fill (p ∷ ps) t l = elim (Bool-cases (p == b'd')) [
  | inl y ↦
      let h : t < 10 * below ps = rw y at l in
      let r = unfill-fill ps (t / 10) (omega arith) in rw (y, r) (omega arith)
  | inr y ↦ rw y (unfill-fill ps t (rw y at l))
]

has_shape-fill : (ps : Text) (t : ℕ) → has_shape ps (fill ps t) ≡ true
unfolding fill has_shape is_digit
has_shape-fill [] t = refl
has_shape-fill (p ∷ ps) t = elim (Bool-cases (p == b'd')) [
  | inl y ↦ rw (y, has_shape-fill ps (t / 10)) (ground arith)
  | inr y ↦ rw (y, has_shape-fill ps t) (ground arith)
]

abbrev shape : Text
shape = codes "dddd-dd-ddTdd:dd:dd.dddZ"

pub digits_iso : ℕ → Text
digits_iso t = fill shape t

pub digits_iso_shape : (t : ℕ) → is_iso_date (digits_iso t) ≡ true
unfolding is_iso_date digits_iso
digits_iso_shape t = has_shape-fill shape t

pub digits_back : (t : ℕ) → t ≤ last_date → unfill shape (digits_iso t) ≡ t
unfolding digits_iso below
digits_back t l = unfill-fill shape t (omega arith)

abbrev pub plain_dates : Dates
plain_dates = record {
  iso = digits_iso;
  parse = λ s. some (unfill shape s);
  iso_shape = λ t l. digits_iso_shape t;
  parse-iso = λ t l. ap some (digits_back t l);
}
