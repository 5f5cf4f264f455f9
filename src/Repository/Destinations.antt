-- ===== src/Repository/Destinations.antt =====
-- src/infrastructure/repositories/destination-repository.ts over base-repository.ts: the table of
-- destinations by their unique ids. A Prisma call fails on a duplicate id and on an id that is not
-- there, and succeeds otherwise; audit records, sums over deliveries and the methods that only hand
-- on to Prisma are left out.
pub mod Endpoints
pub mod Matching
use queue_forge.Base.Maps.{put, find, remove}
use queue_forge.Destination.Types.{DestinationType, webhook, database, queue, audit}
use queue_forge.Destination.Entity.{Fields, all_match}
use queue_forge.Security.Headers.{trim}
use queue_forge.Base.{
  Bool, List, Option, Text, [], codes, false, if◌then◌else◌, includes, is_empty, is_prefix, keep,
  length, ltb, none, not, or_else, some, true, ℕ, ◌/◌, ◌||◌, ◌∷◌,
}

pub record Row : Type 0 where
  pub type : DestinationType
  pub endpoint : Text
  pub event_filters : Option Fields
  pub threshold : ℕ
  pub enabled : Bool

-- The fields that an update gives.
pub record Change : Type 0 where
  pub type : Option DestinationType
  pub endpoint : Option Text
  pub event_filters : Option (Option Fields)
  pub threshold : Option ℕ
  pub enabled : Option Bool

abbrev pub Table : Type 0
Table = List (Text × Row)

-- What `mapDatabaseError` makes of the codes P2002 and P2025, and the repository's own check.
pub data RepositoryError : Type 0 where
  conflict not_found invalid : RepositoryError

abbrev pub Answer : Type 0
Answer = Table × Option RepositoryError

pub has_scheme : List Text → Text → Bool
has_scheme [] endpoint = false
has_scheme (s ∷ ss) endpoint = is_prefix s endpoint || has_scheme ss endpoint

abbrev pub http : List Text
http = codes "http://" ∷ codes "https://" ∷ []

abbrev databases : List Text
databases =
    codes "postgresql://"
    ∷ codes "postgres://"
    ∷ codes "mysql://"
    ∷ codes "mongodb://"
    ∷ codes "sqlite://"
    ∷ []

pub fits : DestinationType → Text → Bool
unfolding has_scheme
fits webhook endpoint = has_scheme http endpoint
fits audit endpoint = has_scheme http endpoint
fits database endpoint = has_scheme databases endpoint
fits queue endpoint = not (includes endpoint (codes " ") || ltb (length endpoint) 3)

-- Where this is false a ValidationError is thrown.
pub validate_endpoint : DestinationType → Text → Bool
unfolding fits
validate_endpoint t endpoint =
    if is_empty endpoint || is_empty (trim endpoint) then false else fits t endpoint

insert : Text → Row → Table → Option Row → Answer
insert id r s none = (put id r s, none)
insert id r s (some _) = (s, some conflict)

unfoldable pub create : Text → Row → Table → Answer
unfolding insert validate_endpoint
create id r s =
    if validate_endpoint r.type r.endpoint then insert id r s (find id s) else (s, some invalid)

-- The check that comes first in `createDestination`: true where it throws.
pub lacks_http : DestinationType → Text → Bool
lacks_http webhook endpoint = not (is_empty endpoint || has_scheme http endpoint)
lacks_http audit endpoint = not (is_empty endpoint || has_scheme http endpoint)
lacks_http _ endpoint = false

pub create_destination : Text → Row → Table → Answer
unfolding lacks_http create
create_destination id r s =
    if lacks_http r.type r.endpoint then (s, some invalid) else create id r s

pub changed : Change → Row → Row
changed c r = record {
  type = or_else c.type r.type;
  endpoint = or_else c.endpoint r.endpoint;
  event_filters = or_else c.event_filters r.event_filters;
  threshold = or_else c.threshold r.threshold;
  enabled = or_else c.enabled r.enabled;
}

-- Only a type and an endpoint that are both given, and the endpoint not empty, are checked.
pub refuses : Option DestinationType → Option Text → Bool
unfolding validate_endpoint
refuses (some t) (some e) = not (is_empty e || validate_endpoint t e)
refuses _ _ = false

unfoldable pub write : Text → Change → Table → Option Row → Answer
unfolding changed
write id c s none = (s, some not_found)
write id c s (some r) = (put id (changed c r) s, none)

unfoldable pub update : Text → Change → Table → Answer
unfolding refuses write
update id c s = if refuses c.type c.endpoint then (s, some invalid) else write id c s (find id s)

abbrev pub no_change : Change
no_change = record {
  type = none;
  endpoint = none;
  event_filters = none;
  threshold = none;
  enabled = none;
}

pub toggle_enabled : Text → Bool → Table → Answer
unfolding update
toggle_enabled id enabled s = update id (record no_change { enabled = some enabled }) s

unfoldable pub update_circuit_breaker_threshold : Text → ℕ → Table → Answer
unfolding update
update_circuit_breaker_threshold id n s =
    if ltb n 1 || ltb 100 n
    then (s, some invalid)
    else update id (record no_change { threshold = some n }) s

pub take_away : Text → Table → Option Row → Answer
take_away id s none = (s, some not_found)
take_away id s (some _) = (remove id s, none)

unfoldable pub delete : Text → Table → Answer
unfolding take_away
delete id s = take_away id s (find id s)

-- `createMany` of the base, with the ids that are drawn; it checks no endpoint, and what was created
-- before an error stays.
unfoldable pub create_many : List (Text × Row) → Table → Answer
create_many [] s = (s, none)
create_many ((id, r) ∷ rs) s = elim (find id s) [
  | none ↦ create_many rs (put id r s)
  | some _ ↦ (s, some conflict)
]

-- `updateMany` and `deleteMany`, on the rows that the condition selects.
unfoldable pub update_many : (Text × Row → Bool) → Change → Table → Table
unfolding changed
update_many p c [] = []
update_many p c ((id, r) ∷ s) =
    let rest = update_many p c s in (id, if p (id, r) then changed c r else r) ∷ rest

selected : (Text × Row → Bool) → Table → List Text
selected p [] = []
selected p ((id, r) ∷ s) = let rest = selected p s in if p (id, r) then id ∷ rest else rest

unfoldable pub remove_all : List Text → Table → Table
remove_all [] s = s
remove_all (id ∷ ids) s = remove_all ids (remove id s)

unfoldable pub delete_many : (Text × Row → Bool) → Table → Table
unfolding selected remove_all
delete_many p s = remove_all (selected p s) s

-- Each field of the event is looked up in the filters.
unfoldable pub matches : Fields → Row → Bool
matches event r = elim r.event_filters [ none ↦ true | some filters ↦ all_match event filters ]

is_enabled : Text × Row → Bool
is_enabled (id, r) = r.enabled

is_match : Fields → Text × Row → Bool
unfolding matches
is_match event (id, r) = matches event r

unfoldable find_matching : Fields → Table → Table
unfolding is_match is_enabled
find_matching event s = keep (is_match event) (keep is_enabled s)
