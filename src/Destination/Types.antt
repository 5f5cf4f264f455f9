-- ===== src/Destination/Types.antt =====
-- src/domain/value-objects/destination-type.vo.ts: the type of a destination. Case mappings are
-- those of the ASCII letters.
use queue_forge.Base.{
  Bool, Bool-cases, Option, Text, arith, codes, false, if◌then◌else◌, inl, inr, lower, none,
  or_text, refl, same_codes, same_codes→eq, some, subst, sym, true, upper, ◌||◌, ◌↔◌, ◌≡◌,
}

pub data DestinationType : Type 0 where
  webhook database queue audit : DestinationType

-- A value handed over as a type: an object with its `kind`, its `value` and what `String` makes of
-- it, or anything else by what `String` makes of it.
pub data RawType : Type 0 where
  plain : Text → RawType
  object : Option Text → Option Text → Text → RawType

raw_text : RawType → Text
raw_text (plain s) = s
raw_text (object kind value shown) = or_text kind (or_text value shown)

classify : Text → Option DestinationType
classify s =
    if same_codes s (codes "WEBHOOK")
    then some webhook
    else if same_codes s (codes "DATABASE")
    then some database
    else if same_codes s (codes "QUEUE")
    then some queue
    else if same_codes s (codes "AUDIT")
    then some audit
    else none

-- The constructor; `none` is its ValidationError.
unfoldable pub create : RawType → Option DestinationType
unfolding classify raw_text
create raw = classify (upper (raw_text raw))

unfoldable pub get_value : DestinationType → Text
get_value webhook = codes "WEBHOOK"
get_value database = codes "DATABASE"
get_value queue = codes "QUEUE"
get_value audit = codes "AUDIT"

unfoldable pub kind : DestinationType → Text
unfolding get_value
kind t = lower (get_value t)

unfoldable pub equals : DestinationType → DestinationType → Bool
unfolding get_value
equals s t = same_codes (get_value s) (get_value t)

abbrev pub is_webhook : DestinationType → Bool
is_webhook webhook = true
is_webhook _ = false

abbrev is_database : DestinationType → Bool
is_database database = true
is_database _ = false

abbrev is_queue : DestinationType → Bool
is_queue queue = true
is_queue _ = false

abbrev is_audit : DestinationType → Bool
is_audit audit = true
is_audit _ = false

-- The free functions, on a truthy value: a text as it is, an object as the constructor reads it.
webhook_loosely : RawType → Bool
unfolding raw_text
webhook_loosely raw = same_codes (upper (raw_text raw)) (codes "WEBHOOK")

database_loosely : RawType → Bool
unfolding raw_text
database_loosely raw = same_codes (upper (raw_text raw)) (codes "DATABASE")

queue_loosely : RawType → Bool
unfolding raw_text
queue_loosely raw = same_codes (upper (raw_text raw)) (codes "QUEUE")

audit_loosely : RawType → Bool
unfolding raw_text
audit_loosely raw = same_codes (upper (raw_text raw)) (codes "AUDIT")

-- A text by its cases: the four names, or none of them.
by_name :
    (P : Text → Type 0) (t : Text)
    → P (codes "WEBHOOK")
    → P (codes "DATABASE")
    → P (codes "QUEUE")
    → P (codes "AUDIT")
    → (same_codes t (codes "WEBHOOK") ≡ false
        → same_codes t (codes "DATABASE") ≡ false
        → same_codes t (codes "QUEUE") ≡ false
        → same_codes t (codes "AUDIT") ≡ false
        → P t)
    → P t
by_name P t w d q a other = elim (Bool-cases (same_codes t (codes "WEBHOOK"))) [
  | inl e ↦ subst P (sym (same_codes→eq t (codes "WEBHOOK") e)) w
  | inr nw ↦ elim (Bool-cases (same_codes t (codes "DATABASE"))) [
    | inl e ↦ subst P (sym (same_codes→eq t (codes "DATABASE") e)) d
    | inr nd ↦ elim (Bool-cases (same_codes t (codes "QUEUE"))) [
      | inl e ↦ subst P (sym (same_codes→eq t (codes "QUEUE") e)) q
      | inr nq ↦ elim (Bool-cases (same_codes t (codes "AUDIT"))) [
        | inl e ↦ subst P (sym (same_codes→eq t (codes "AUDIT") e)) a
        | inr na ↦ other nw nd nq na
      ]
    ]
  ]
]

classify-flags :
    (x : Text) (t : DestinationType)
    → classify x ≡ some t
    → (same_codes x (codes "WEBHOOK") ≡ is_webhook t)
      × (same_codes x (codes "DATABASE") ≡ is_database t)
      × (same_codes x (codes "QUEUE") ≡ is_queue t)
      × (same_codes x (codes "AUDIT") ≡ is_audit t)
unfolding classify
classify-flags x t =
    by_name
      (λ x.
        classify x ≡ some t
        → (same_codes x (codes "WEBHOOK") ≡ is_webhook t)
          × (same_codes x (codes "DATABASE") ≡ is_database t)
          × (same_codes x (codes "QUEUE") ≡ is_queue t)
          × (same_codes x (codes "AUDIT") ≡ is_audit t))
      x (λ h. (ground arith, ground arith, ground arith, ground arith))
      (λ h. (ground arith, ground arith, ground arith, ground arith))
      (λ h. (ground arith, ground arith, ground arith, ground arith))
      (λ h. (ground arith, ground arith, ground arith, ground arith))
      λ a b c d h. (ground arith, ground arith, ground arith, ground arith)

classify-none :
    (x : Text)
    → (classify x ≡ none) ↔ (
        (same_codes x (codes "WEBHOOK")
          || (same_codes x (codes "DATABASE")
              || (same_codes x (codes "QUEUE") || same_codes x (codes "AUDIT"))))
        ≡ false)
unfolding classify
classify-none x = (λ h. ground arith, λ h. ground arith)

create-get_value : (t : DestinationType) → create (plain (get_value t)) ≡ some t
unfolding create get_value
create-get_value webhook = refl
create-get_value database = refl
create-get_value queue = refl
create-get_value audit = refl

create-kind : (t : DestinationType) → create (plain (kind t)) ≡ some t
unfolding create kind
create-kind webhook = refl
create-kind database = refl
create-kind queue = refl
create-kind audit = refl

-- The constructor accepts a value exactly where one of the four free functions does, and then they
-- say what the methods of the type say; it reads a type back from its value and from its kind, in
-- any case of letters.
create_loosely :
    (raw : RawType) (t : DestinationType)
    → (create raw ≡ some t
        → (webhook_loosely raw ≡ is_webhook t)
          × (database_loosely raw ≡ is_database t)
          × (queue_loosely raw ≡ is_queue t)
          × (audit_loosely raw ≡ is_audit t))
      × ((create raw ≡ none) ↔ (
          (webhook_loosely raw
            || (database_loosely raw || (queue_loosely raw || audit_loosely raw)))
          ≡ false))
      × (create (plain (get_value t)) ≡ some t)
      × (create (plain (kind t)) ≡ some t)
unfolding create raw_text webhook_loosely database_loosely queue_loosely audit_loosely
create_loosely raw t = (
  classify-flags (upper (raw_text raw)) t,
  classify-none (upper (raw_text raw)),
  create-get_value t,
  create-kind t,
)
