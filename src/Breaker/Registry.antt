-- ===== src/Breaker/Registry.antt =====
-- src/resilience/circuit-breaker/circuit-breaker-manager.ts: one breaker for each destination, in
-- the order of their creation. The Redis key that `reset` deletes is left out.
use queue_forge.Base.Maps.{find-put, find, put}
use queue_forge.Breaker.State.{open_circuit, Overrides}
use queue_forge.Base.{
  Bool, List, Option, Option-cases, Text, [], false, inl, inr, none, refl, same_codes,
  same_codes_refl, some, ℕ, ◌≡◌,
}
use queue_forge.Breaker.Circuit.{same_state, Breaker, reset, can_execute, get_state, make}

pub record Registry : Type 0 where
  pub default_config : Overrides
  pub breakers : List (Text × Breaker)

unfoldable pub empty : Overrides → Registry
empty o = record { default_config = o; breakers = [] }

first_of : Option ℕ → Option ℕ → Option ℕ
first_of none o = o
first_of (some n) o = some n

-- `{ ...defaults, ...overrides }`.
merge : Overrides → Overrides → Overrides
unfolding first_of
merge defaults o = record {
  threshold = first_of o.threshold defaults.threshold;
  timeout = first_of o.timeout defaults.timeout;
  monitoring_period = first_of o.monitoring_period defaults.monitoring_period;
  rolling_count_timeout = first_of o.rolling_count_timeout defaults.rolling_count_timeout;
  success_threshold = first_of o.success_threshold defaults.success_threshold;
  half_open_timeout = first_of o.half_open_timeout defaults.half_open_timeout;
}

create_breaker : Text → Overrides → Registry → Registry × Breaker
unfolding merge
create_breaker id o r =
    let b = make id (merge r.default_config o) in (record r { breakers = put id b r.breakers }, b)

or_create : Text → Overrides → Option Breaker → Registry → Registry × Breaker
unfolding create_breaker
or_create id o none r = create_breaker id o r
or_create id o (some b) r = (r, b)

get_or_create_breaker : Text → Overrides → Registry → Registry × Breaker
unfolding or_create
get_or_create_breaker id o r = or_create id o (find id r.breakers) r

abbrev pub no_overrides : Overrides
no_overrides = record {
  threshold = none;
  timeout = none;
  monitoring_period = none;
  rolling_count_timeout = none;
  success_threshold = none;
  half_open_timeout = none;
}

unfoldable pub get_breaker : Text → Registry → Registry × Breaker
unfolding get_or_create_breaker
get_breaker id r = get_or_create_breaker id no_overrides r

-- A method of a breaker changes the object that the map holds.
pub update : Text → Breaker → Registry → Registry
update id b r = record r { breakers = put id b r.breakers }

unfoldable pub is_open : ℕ → Text → Registry → Registry × Bool
unfolding get_breaker update
is_open now id r =
    let (r', b) = get_breaker id r in
    let (b', state) = get_state now b in (update id b' r', same_state state open_circuit)

is_destination_available : ℕ → Text → Registry → Registry × Bool
unfolding get_breaker update
is_destination_available now id r =
    let (r', b) = get_breaker id r in
    let (b', allowed) = can_execute now b in (update id b' r', allowed)

reset_found : ℕ → Text → Option Breaker → Registry → Registry
unfolding update
reset_found now id none r = r
reset_found now id (some b) r = update id (reset now b) r

unfoldable reset_breaker : ℕ → Text → Registry → Registry
unfolding reset_found
reset_breaker now id r = reset_found now id (find id r.breakers) r

-- What is registered after a destination was made sure of.
get_breaker-find :
    (id k : Text) (r : Registry)
    → same_codes id k ≡ false
    → find k (get_breaker id r).0.breakers ≡ find k r.breakers
unfolding get_breaker
get_breaker-find id k r h = elim (Option-cases (find id r.breakers)) [
  | inl e ↦ rw (e, or_create) (rw (find-put, h))
  | inr (b, e) ↦ rw (e, or_create)
]

-- Asking for a destination makes or moves on its own breaker only: what is registered for any other
-- destination stays, and what is registered for this one answers as its own breaker does.
is_destination_available_isolated :
    (now : ℕ) (id k : Text) (r : Registry)
    → (same_codes id k ≡ false
        → find k (is_destination_available now id r).0.breakers ≡ find k r.breakers)
      × ((b : Breaker)
          → find id r.breakers ≡ some b
          → (find id (is_destination_available now id r).0.breakers ≡ some (can_execute now b).0)
            × ((is_destination_available now id r).1 ≡ (can_execute now b).1))
unfolding is_destination_available
is_destination_available_isolated now id k r = (
  λ h. rw (find-put, h) (get_breaker-find id k r h),
  λ b e. rw (e, or_create) (rw (find-put, same_codes_refl) (refl, refl)),
)
