-- ===== src/Bulkhead/Slots.antt =====
-- src/resilience/bulkhead/pool-manager.ts: the workers that occupy a slot, in the order in which
-- they came.
use queue_forge.Base.{
  Bool, List, Option, Text, [], arith, false, if◌then◌else◌, leb, length, length-append, none, refl,
  same_codes, some, ℕ, ◌++◌, ◌-◌, ◌||◌, ◌↔◌, ◌∷◌, ◌≡◌, ◌≤◌,
}

pub record Slots : Type 0 where
  pub max_size : ℕ
  pub active : List Text

has : Text → List Text → Bool
has w [] = false
has w (v ∷ vs) = same_codes v w || has w vs

delete : Text → List Text → List Text
delete w [] = []
delete w (v ∷ vs) = let rest = delete w vs in if same_codes v w then rest else v ∷ rest

unfoldable get_available_slots : Slots → ℕ
get_available_slots s = s.max_size - length s.active

-- `none` is PoolExhaustedError.
unfoldable pub acquire : Text → Slots → Option Slots
unfolding has
acquire w s =
    if has w s.active
    then some s
    else if leb s.max_size (length s.active)
    then none
    else some (record s { active = s.active ++ w ∷ [] })

unfoldable pub release : Text → Slots → Slots
unfolding delete
release w s = record s { active = delete w s.active }

length-delete : (w : Text) (vs : List Text) → length (delete w vs) ≤ length vs
unfolding delete
length-delete w [] = omega arith
length-delete w (v ∷ vs) = ground (arith, length-delete w vs)

has-delete : (w : Text) (vs : List Text) → has w (delete w vs) ≡ false
unfolding has delete
has-delete w [] = refl
has-delete w (v ∷ vs) = ground (arith, has-delete w vs)

-- While at most the maximum of slots is in use, this holds after an acquisition and after a release
-- too; an acquisition is refused exactly when the worker has no slot and all are in use.
acquire_bounds :
    (w : Text) (s : Slots)
    → length s.active ≤ s.max_size
    → (length (release w s).active ≤ s.max_size)
      × ((s' : Slots) → acquire w s ≡ some s' → length s'.active ≤ s.max_size)
      × ((acquire w s ≡ none) ↔ ((has w s.active ≡ false) × (length s.active ≡ s.max_size)))
unfolding acquire release
acquire_bounds w s h = (
  omega (arith, length-delete w s.active),
  λ s' e. ground (arith, length-append s.active (w ∷ [])),
  (λ e. (ground arith, ground arith), λ e. ground arith),
)
