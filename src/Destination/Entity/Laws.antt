-- ===== src/Destination/Entity/Laws.antt =====
-- When a destination is well formed, and which events it matches.
use mathlib.Core.Option.{some_inj}
use queue_forge.Base.Maps.{find}
use queue_forge.Base.Int.{ℤ}
use queue_forge.Destination.Entity.{
  matches_event_filter, all_match, has_value, null, object, bool, number,
  update_circuit_breaker_threshold, text, Value, Params, set_metadata, is_endpoint, same_value,
  same_number, restore, set_enabled, Fields, construct, Destination,
}
use queue_forge.Base.{
  ==_iff, Bool, Bool-cases, List, Option, Option-cases, Text, [], ap, arith, false, inl, inr,
  is_empty, none, or_else, or_text, refl, same_codes_refl, same_codes→eq, some, subst, sym, true, ℕ,
  ◌↔◌, ◌∷◌, ◌≡◌, ◌≤◌,
}

-- What the constructor checks, and so what a destination keeps.
pub record IsValid (d : Destination) : Type 0 where
  pub has_id : is_empty d.id ≡ false
  pub has_endpoint : is_empty d.endpoint ≡ false
  pub has_threshold : 1 ≤ d.circuit_breaker_threshold
  pub has_timeout : 1 ≤ d.timeout
  pub has_scheme : is_endpoint d.type d.endpoint ≡ true

construct-IsValid : (c d : Destination) → construct c ≡ some d → IsValid d
unfolding construct
construct-IsValid c d h = record {
  has_id = ground arith;
  has_endpoint = ground arith;
  has_threshold = ground arith;
  has_timeout = ground arith;
  has_scheme = ground arith;
}

construct-same : (d : Destination) → IsValid d → construct d ≡ some d
unfolding construct
construct-same d v =
    ground (arith, v.has_id, v.has_endpoint, v.has_threshold, v.has_timeout, v.has_scheme)

-- A destination's calls.
pub data Call : Type 0 where
  enables : Bool → Call
  sets_metadata : Fields → Call
  sets_threshold : ℕ → Call

-- A call that throws leaves the destination as it is.
pub call : ℕ → Call → Destination → Destination
call now (enables b) d = set_enabled now b d
call now (sets_metadata m) d = set_metadata now m d
call now (sets_threshold n) d = or_else (update_circuit_breaker_threshold now n d) d

pub call_all : List (ℕ × Call) → Destination → Destination
call_all [] d = d
call_all ((now, c) ∷ cs) d = call_all cs (call now c d)

call-IsValid : (now : ℕ) (c : Call) (d : Destination) → IsValid d → IsValid (call now c d)
unfolding call set_enabled set_metadata update_circuit_breaker_threshold
call-IsValid now (enables b) d v = record {
  has_id = v.has_id;
  has_endpoint = v.has_endpoint;
  has_threshold = v.has_threshold;
  has_timeout = v.has_timeout;
  has_scheme = v.has_scheme;
}
call-IsValid now (sets_metadata m) d v = record {
  has_id = v.has_id;
  has_endpoint = v.has_endpoint;
  has_threshold = v.has_threshold;
  has_timeout = v.has_timeout;
  has_scheme = v.has_scheme;
}
call-IsValid now (sets_threshold n) d v = record {
  has_id = ground (arith, v.has_id);
  has_endpoint = ground (arith, v.has_endpoint);
  has_threshold = ground (arith, v.has_threshold);
  has_timeout = ground (arith, v.has_timeout);
  has_scheme = ground (arith, v.has_scheme);
}

call_all-IsValid : (cs : List (ℕ × Call)) (d : Destination) → IsValid d → IsValid (call_all cs d)
unfolding call_all
call_all-IsValid [] d v = v
call_all-IsValid ((now, c) ∷ cs) d v = call_all-IsValid cs (call now c d) (call-IsValid now c d v)

-- The fields of a destination, as `restore` takes them.
abbrev pub params : Destination → Params
params d = record {
  id = some d.id;
  type = d.type;
  endpoint = some d.endpoint;
  endpoint_url = none;
  event_filters = d.event_filters;
  retry_strategy = d.retry_strategy;
  circuit_breaker_threshold = some d.circuit_breaker_threshold;
  timeout = some d.timeout;
  enabled = some d.enabled;
  metadata = some d.metadata;
  created_at = some d.created_at;
  updated_at = some d.updated_at;
  deleted_at = d.deleted_at;
}

or_text-given : (t other : Text) → is_empty t ≡ false → or_text (some t) other ≡ t
or_text-given [] other h = cc
or_text-given (c ∷ t) other h = refl

restore-params : (now : ℕ) (d : Destination) → IsValid d → restore now (params d) ≡ some d
unfolding restore
restore-params now d v =
    rw (or_text-given d.id [] v.has_id, or_text-given d.endpoint [] v.has_endpoint)
      (construct-same d v)

-- Every destination that the constructor lets through has an id, an endpoint, a threshold and a
-- time limit of at least 1, and for a webhook an endpoint that starts with http:// or https://. It
-- keeps all that through any calls, also through those that throw, and after them `restore` gives
-- the same destination back from its fields, at any time.
pub restore-call_all :
    (now : ℕ) (c d : Destination) (cs : List (ℕ × Call))
    → construct c ≡ some d
    → let e = call_all cs d in IsValid e × (restore now (params e) ≡ some e)
restore-call_all now c d cs h =
    let v = call_all-IsValid cs d (construct-IsValid c d h) in
    (v, restore-params now (call_all cs d) v)

same_number-eq : (n m : ℤ) → (same_number n m ≡ true) ↔ (n ≡ m)
unfolding same_number
same_number-eq (ℤ.pos n) (ℤ.pos m) = (λ h. ground arith, λ h. ground arith)
same_number-eq (ℤ.pos n) (ℤ.negsuc m) = (λ h. ground arith, λ h. ground arith)
same_number-eq (ℤ.negsuc n) (ℤ.pos m) = (λ h. ground arith, λ h. ground arith)
same_number-eq (ℤ.negsuc n) (ℤ.negsuc m) = (λ h. ground arith, λ h. ground arith)

same_value_refl : (v : Value) → same_value v v ≡ true
unfolding same_value
same_value_refl (text s) = same_codes_refl s
same_value_refl (number n) = (same_number-eq n n).1 refl
same_value_refl (bool true) = refl
same_value_refl (bool false) = refl
same_value_refl null = refl
same_value_refl (object n) = ground arith

same_value-eq : (v w : Value) → same_value v w ≡ true → v ≡ w
unfolding same_value
same_value-eq (text s) (text t) h = ap (λ (x : Text). text x) (same_codes→eq s t h)
same_value-eq (number n) (number m) h = ap (λ (x : ℤ). number x) ((same_number-eq n m).0 h)
same_value-eq (bool true) (bool b) h = ap (λ (x : Bool). bool x) (sym h)
same_value-eq (bool false) (bool true) h = cc
same_value-eq (bool false) (bool false) h = refl
same_value-eq null null h = refl
same_value-eq (object n) (object m) h = ap (λ (x : ℕ). object x) ((==_iff n m).0 h)
same_value-eq (text x) (number y) h = cc
same_value-eq (text x) (bool y) h = cc
same_value-eq (text x) null h = cc
same_value-eq (text x) (object y) h = cc
same_value-eq (number x) (text y) h = cc
same_value-eq (number x) (bool y) h = cc
same_value-eq (number x) null h = cc
same_value-eq (number x) (object y) h = cc
same_value-eq (bool x) (text y) h = cc
same_value-eq (bool x) (number y) h = cc
same_value-eq (bool x) null h = cc
same_value-eq (bool x) (object y) h = cc
same_value-eq null (text y) h = cc
same_value-eq null (number y) h = cc
same_value-eq null (bool y) h = cc
same_value-eq null (object y) h = cc
same_value-eq (object x) (text y) h = cc
same_value-eq (object x) (number y) h = cc
same_value-eq (object x) (bool y) h = cc
same_value-eq (object x) null h = cc

-- Every filter's value is what the event has under its key.
abbrev pub AllHold : Fields → Fields → Type 0
AllHold [] event = Unit {0}
AllHold ((k, v) ∷ filters) event = (find k event ≡ some v) × AllHold filters event

has_value-eq : (o : Option Value) (v : Value) → (has_value o v ≡ true) ↔ (o ≡ some v)
unfolding has_value
has_value-eq none v = (λ h. cc, λ h. ground arith)
has_value-eq (some w) v = (
  λ h. ap (λ (x : Value). some x) (same_value-eq w v h),
  λ h. rw (some_inj.0 h) (same_value_refl v),
)

not_both : {b : Bool} → b ≡ false → b ≡ true → ⊥
not_both e f = cc

pub all_match-AllHold :
    (filters event : Fields) → (all_match filters event ≡ true) ↔ AllHold filters event
unfolding all_match
all_match-AllHold [] event = (λ h. tt, λ h. refl)
all_match-AllHold ((k, v) ∷ filters) event =
    let (f, g) = all_match-AllHold filters event in
    let (a, b) = has_value-eq (find k event) v in
    elim (Bool-cases (has_value (find k event) v)) [
      | inl e ↦ rw e (λ h. (a e, f h), λ h. g h.1)
      | inr e ↦ rw e (λ h. cc, λ h. absurd (not_both e (b h.0)))
    ]

-- A destination matches an event exactly where each of its filters has the value that the event has
-- under the filter's key; one without filters matches every event.
matches_event_filter_exact :
    (event : Fields) (d : Destination)
    → (matches_event_filter event d ≡ true)
      ↔ ((filters : Fields) → d.event_filters ≡ some filters → AllHold filters event)
unfolding matches_event_filter
matches_event_filter_exact event d = elim (Option-cases d.event_filters) [
  | inl e ↦ rw e (λ h fs p. ground arith, λ h. refl)
  | inr (fs, e) ↦
      let (f, g) = all_match-AllHold fs event in
      rw e
        (λ h gs p. subst (λ (x : Fields). AllHold x event) (some_inj.0 p) (f h), λ h. g (h fs refl))
]
