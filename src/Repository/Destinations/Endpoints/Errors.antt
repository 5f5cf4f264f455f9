-- ===== src/Repository/Destinations/Endpoints/Errors.antt =====
-- Updates that are not checked, and calls that are refused.
use queue_forge.Repository.Destinations.Endpoints.{
  Act, act, create_row, create_checked, change, toggle, set_threshold, drop_row, create_all,
  change_all, drop_all, create_destination-create,
}
use queue_forge.Repository.Destinations.{
  RepositoryError, delete, no_change, refuses, validate_endpoint, Answer, Change, toggle_enabled,
  take_away, update_circuit_breaker_threshold, update, write, changed, create, insert, Table, Row,
}
use queue_forge.Base.Maps.{find, find-put}
use queue_forge.Base.{
  Bool-cases, Option, Text, inl, inr, ltb, none, refl, same_codes_refl, some, ◌||◌, ◌≡◌,
}

-- An answer that changed the table has no error.
abbrev Steady : Table → Answer → Type 0
Steady s (s', o) = (e : RepositoryError) → o ≡ some e → s' ≡ s

insert-Steady : (id : Text) (r : Row) (s : Table) (o : Option Row) → Steady s (insert id r s o)
unfolding insert
insert-Steady id r s none e h = cc
insert-Steady id r s (some _) e h = refl

write-Steady : (id : Text) (c : Change) (s : Table) (o : Option Row) → Steady s (write id c s o)
unfolding write
write-Steady id c s none e h = refl
write-Steady id c s (some r) e h = cc

take_away-Steady : (id : Text) (s : Table) (o : Option Row) → Steady s (take_away id s o)
unfolding take_away
take_away-Steady id s none e h = refl
take_away-Steady id s (some _) e h = cc

create-Steady : (id : Text) (r : Row) (s : Table) → Steady s (create id r s)
unfolding create
create-Steady id r s = elim (Bool-cases (validate_endpoint r.type r.endpoint)) [
  | inl y ↦ rw y (insert-Steady id r s (find id s))
  | inr y ↦ rw y (λ e h. refl)
]

update-Steady : (id : Text) (c : Change) (s : Table) → Steady s (update id c s)
unfolding update
update-Steady id c s = elim (Bool-cases (refuses c.type c.endpoint)) [
  | inl y ↦ rw y (λ e h. refl)
  | inr y ↦ rw y (write-Steady id c s (find id s))
]

-- Not `createMany`, which keeps what it created before the error.
IsSingle : Act → Type 0
IsSingle (create_all rs) = ⊥
IsSingle _ = Unit {0}

error_unchanged : (a : Act) (s : Table) → IsSingle a → Steady s (act a s)
unfolding toggle_enabled delete update_circuit_breaker_threshold act IsSingle
error_unchanged (create_row id r) s w = create-Steady id r s
error_unchanged (create_checked id r) s w =
    rw (create_destination-create id r s) (create-Steady id r s)
error_unchanged (change id c) s w = update-Steady id c s
error_unchanged (toggle id enabled) s w =
    update-Steady id (record no_change { enabled = some enabled }) s
error_unchanged (set_threshold id n) s w = elim (Bool-cases (ltb n 1 || ltb 100 n)) [
  | inl y ↦ rw y (λ e h. refl)
  | inr y ↦ rw y (update-Steady id (record no_change { threshold = some n }) s)
]
error_unchanged (drop_row id) s w = take_away-Steady id s (find id s)
error_unchanged (create_all rs) s w = absurd w
error_unchanged (change_all p c) s w = λ e h. cc
error_unchanged (drop_all p) s w = λ e h. cc

-- An update of the endpoint alone stores any text, whatever the type of the destination; and a
-- call other than `createMany` that answers with an error leaves the table as it was.
endpoint_alone :
    (id endpoint : Text) (r : Row) (s : Table)
    → find id s ≡ some r
    → (find id (update id (record no_change { endpoint = some endpoint }) s).0
        ≡ some (record r { endpoint = endpoint }))
      × ((a : Act) (e : RepositoryError) → IsSingle a → (act a s).1 ≡ some e → (act a s).0 ≡ s)
unfolding update
endpoint_alone id endpoint r s f = (
  rw (f, write, changed)
      (rw (find-put id id (record r { endpoint = endpoint }) s, same_codes_refl id) refl),
  λ a e w h. error_unchanged a s w e h,
)
