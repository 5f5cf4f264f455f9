-- ===== src/Destination/Entity.antt =====
-- src/domain/entities/destination.entity.ts: where results are delivered. A method takes the time
-- that its calls of `new Date()` see; `none` is a ValidationError.
pub mod Laws
use queue_forge.Delivery.Strategy.{Strategy}
use queue_forge.Base.Maps.{find}
use queue_forge.Destination.Types.{is_webhook, DestinationType}
use queue_forge.Base.Int.{ℤ}
use queue_forge.Base.{
  Bool, List, Option, Text, [], codes, false, if◌then◌else◌, is_empty, is_prefix, ltb, none, not,
  or_else, or_text, same_codes, some, suc, true, zero, ℕ, ◌/◌, ◌==◌, ◌||◌, ◌∷◌,
}

-- A value of a filter, an event or the metadata, as far as `===` tells values apart: an object is
-- its identity.
pub data Value : Type 0 where
  text : Text → Value
  number : ℤ → Value
  bool : Bool → Value
  null : Value
  object : ℕ → Value

abbrev pub Fields : Type 0
Fields = List (Text × Value)

pub record Destination : Type 0 where
  pub id : Text
  pub type : DestinationType
  pub endpoint : Text
  pub event_filters : Option Fields
  pub retry_strategy : Strategy
  pub circuit_breaker_threshold : ℕ
  pub timeout : ℕ
  pub enabled : Bool
  pub metadata : Fields
  pub created_at : ℕ
  pub updated_at : ℕ
  pub deleted_at : Option ℕ

-- `validateEndpoint`, which throws where this is false.
unfoldable pub is_endpoint : DestinationType → Text → Bool
is_endpoint t endpoint =
    not (is_webhook t)
    || (is_prefix (codes "http://") endpoint || is_prefix (codes "https://") endpoint)

-- The constructor's checks, on the fields that it is given.
unfoldable pub construct : Destination → Option Destination
construct d =
    if is_empty d.id
    then none
    else if is_empty d.endpoint
    then none
    else if ltb d.circuit_breaker_threshold 1
    then none
    else if ltb d.timeout 1
    then none
    else if not (is_endpoint d.type d.endpoint)
    then none
    else some d

-- The positional factory; `fresh` is what uuidv4 returns.
unfoldable pub create :
    ℕ
    → Text
    → DestinationType
    → Text
    → Strategy
    → Option ℕ
    → Option ℕ
    → Option Fields
    → Fields
    → Option Text
    → Option Destination
unfolding construct
create now fresh type endpoint strategy threshold timeout filters metadata id = construct (record {
  id = or_text id fresh;
  type = type;
  endpoint = endpoint;
  event_filters = filters;
  retry_strategy = strategy;
  circuit_breaker_threshold = or_else threshold 5;
  timeout = or_else timeout 30000;
  enabled = true;
  metadata = metadata;
  created_at = now;
  updated_at = now;
  deleted_at = none;
})

-- The parameters that `create` takes as one object and those of `restore`, with the type and the
-- strategy made.
pub record Params : Type 0 where
  pub id : Option Text
  pub type : DestinationType
  pub endpoint : Option Text
  pub endpoint_url : Option Text
  pub event_filters : Option Fields
  pub retry_strategy : Strategy
  pub circuit_breaker_threshold : Option ℕ
  pub timeout : Option ℕ
  pub enabled : Option Bool
  pub metadata : Option Fields
  pub created_at : Option ℕ
  pub updated_at : Option ℕ
  pub deleted_at : Option ℕ

or_default : Option ℕ → ℕ → ℕ
or_default none d = d
or_default (some zero) d = d
or_default (some (suc n)) d = suc n

unfoldable create_from : ℕ → Text → Params → Option Destination
unfolding construct or_default
create_from now fresh p = construct (record {
  id = or_text p.id fresh;
  type = p.type;
  endpoint = or_text p.endpoint (or_text p.endpoint_url []);
  event_filters = p.event_filters;
  retry_strategy = p.retry_strategy;
  circuit_breaker_threshold = or_default p.circuit_breaker_threshold 5;
  timeout = or_default p.timeout 30000;
  enabled = or_else p.enabled true;
  metadata = or_else p.metadata [];
  created_at = or_else p.created_at now;
  updated_at = or_else p.updated_at now;
  deleted_at = none;
})

pub restore : ℕ → Params → Option Destination
unfolding construct
restore now p = construct (record {
  id = or_text p.id [];
  type = p.type;
  endpoint = or_text p.endpoint (or_text p.endpoint_url []);
  event_filters = p.event_filters;
  retry_strategy = p.retry_strategy;
  circuit_breaker_threshold = or_else p.circuit_breaker_threshold 5;
  timeout = or_else p.timeout 30000;
  enabled = or_else p.enabled true;
  metadata = or_else p.metadata [];
  created_at = or_else p.created_at now;
  updated_at = or_else p.updated_at (or_else p.created_at now);
  deleted_at = p.deleted_at;
})

pub set_enabled : ℕ → Bool → Destination → Destination
set_enabled now enabled d = record d { enabled = enabled; updated_at = now }

unfoldable disable : ℕ → Destination → Destination
unfolding set_enabled
disable now d = set_enabled now false d

pub set_metadata : ℕ → Fields → Destination → Destination
set_metadata now metadata d = record d { metadata = metadata; updated_at = now }

pub update_circuit_breaker_threshold : ℕ → ℕ → Destination → Option Destination
update_circuit_breaker_threshold now threshold d =
    if ltb threshold 1
    then none
    else some (record d { circuit_breaker_threshold = threshold; updated_at = now })

same_bool : Bool → Bool → Bool
same_bool true b = b
same_bool false b = not b

same_number : ℤ → ℤ → Bool
same_number (ℤ.pos n) (ℤ.pos m) = n == m
same_number (ℤ.negsuc n) (ℤ.negsuc m) = n == m
same_number _ _ = false

-- `===`.
unfoldable pub same_value : Value → Value → Bool
unfolding same_bool same_number
same_value (text s) (text t) = same_codes s t
same_value (number n) (number m) = same_number n m
same_value (bool a) (bool b) = same_bool a b
same_value null null = true
same_value (object n) (object m) = n == m
same_value _ _ = false

-- `event[key] === value`; a key that the event lacks gives `undefined`, which no filter is.
has_value : Option Value → Value → Bool
unfolding same_value
has_value none v = false
has_value (some w) v = same_value w v

unfoldable pub all_match : Fields → Fields → Bool
unfolding has_value
all_match [] event = true
all_match ((k, v) ∷ filters) event =
    let rest = all_match filters event in if has_value (find k event) v then rest else false

unfoldable pub matches_event_filter : Fields → Destination → Bool
unfolding all_match
matches_event_filter event d = elim d.event_filters [
  | none ↦ true
  | some filters ↦ all_match filters event
]

unfoldable pub equals : Destination → Destination → Bool
equals d e = same_codes d.id e.id
