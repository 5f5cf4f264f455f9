-- ===== src/Queue/Serializer.antt =====
-- src/infrastructure/queue/job-serializer.ts: dates of a job's data become texts and texts that look
-- like dates become dates. The two ways of dates are an interface; numbers, Booleans and null are
-- one kind of plain value.
pub mod Roundtrip
use mathlib.Core.Option
use queue_forge.Base.{
  Bool, Option, Text, [], codes, false, if◌then◌else◌, leb, map, none, some, true, ℕ, ◌&&◌, ◌-◌,
  ◌==◌, ◌∷◌, ◌≡◌, ◌≤◌,
}

mutual
  pub data Value : Type 0 where
    plain : ℕ → Value
    text : Text → Value
    date : ℕ → Value
    invalid_date : Value
    arr : Items → Value
    obj : Fields → Value

  pub data Items : Type 0 where
    nil : Items
    cons : Value → Items → Items

  pub data Fields : Type 0 where
    end : Fields
    field : Text → Value → Fields → Fields

unfoldable pub is_digit : ℕ → Bool
is_digit c = leb b'0' c && leb c b'9'

-- A text by a pattern in which `d` stands for a digit.
unfoldable pub has_shape : Text → Text → Bool
unfolding is_digit
has_shape [] [] = true
has_shape [] (c ∷ s) = false
has_shape (p ∷ ps) [] = false
has_shape (p ∷ ps) (c ∷ s) = (if p == b'd' then is_digit c else c == p) && has_shape ps s

-- `/^\d{4}-\d{2}-\d{2}T\d{2}:\d{2}:\d{2}\.\d{3}Z$/`.
unfoldable pub is_iso_date : Text → Bool
unfolding has_shape
is_iso_date s = has_shape (codes "dddd-dd-ddTdd:dd:dd.dddZ") s

-- The last millisecond of a year of four digits.
abbrev pub last_date : ℕ
last_date = 253402300799999

-- `toISOString`, and `new Date` of a text, which is none where the date is not valid.
pub record Dates : Type 0 where
  pub iso : ℕ → Text
  pub parse : Text → Option ℕ
  pub iso_shape : (t : ℕ) → t ≤ last_date → is_iso_date (iso t) ≡ true
  pub parse-iso : (t : ℕ) → t ≤ last_date → parse (iso t) ≡ some t

pub parsed : Option ℕ → Value
parsed none = invalid_date
parsed (some t) = date t

unfoldable pub both {ℓ} : {A B C : Type ℓ} → (A → B → C) → Option A → Option B → Option C
both f none o = none
both f (some a) none = none
both f (some a) (some b) = some (f a b)

module _ (D : Dates) where
  -- `toISOString` throws at a date that is not valid.
  unfoldable mutual
    pub convert_dates : Value → Option Value
    convert_dates (date t) = some (text (D.iso t))
    convert_dates invalid_date = none
    convert_dates (arr xs) = Option.map arr (convert_items xs)
    convert_dates (obj fs) = Option.map obj (convert_fields fs)
    convert_dates v = some v

    pub convert_items : Items → Option Items
    convert_items nil = some nil
    convert_items (cons x xs) = both cons (convert_dates x) (convert_items xs)

    pub convert_fields : Fields → Option Fields
    convert_fields end = some end
    convert_fields (field k x fs) = both (field k) (convert_dates x) (convert_fields fs)

  unfoldable mutual
    unfolding is_iso_date

    pub parse_dates : Value → Value
    parse_dates (text s) = if is_iso_date s then parsed (D.parse s) else text s
    parse_dates (arr xs) = arr (parse_items xs)
    parse_dates (obj fs) = obj (parse_fields fs)
    parse_dates (date t) = obj end
    parse_dates invalid_date = obj end
    parse_dates (plain n) = plain n

    pub parse_items : Items → Items
    parse_items nil = nil
    parse_items (cons x xs) = cons (parse_dates x) (parse_items xs)

    pub parse_fields : Fields → Fields
    parse_fields end = end
    parse_fields (field k x fs) = field k (parse_dates x) (parse_fields fs)
