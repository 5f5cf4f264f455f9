-- ===== src/Repository/Destinations/Endpoints.antt =====
-- Which endpoints the table can hold.
pub mod Errors
use queue_forge.Repository.Destinations.{
  create_many, update_many, delete_many, remove_all, selected, has_scheme, fits, delete, no_change,
  refuses, lacks_http, validate_endpoint, Answer, Change, toggle_enabled, take_away,
  update_circuit_breaker_threshold, update, write, changed, create_destination, create, insert,
  Table, Row,
}
use mathlib.Core.Option.{some_inj}
use queue_forge.Base.Maps.{put, find, remove, find-put, find-remove}
use queue_forge.Destination.Types.{DestinationType, webhook, database, queue, audit}
use queue_forge.Destination.Entity.{is_endpoint}
use queue_forge.Base.{
  Bool, Bool-cases, Option-cases, sym, ap, ◌∙◌, List, Option, Text, [], arith, false, inl, inr,
  is_empty, ltb, none, not, or_else, refl, same_codes, some, subst, true, ℕ, ◌||◌, ◌∷◌, ◌≡◌,
}

-- A call of the repository.
pub data Act : Type 0 where
  create_row create_checked : Text → Row → Act
  change : Text → Change → Act
  toggle : Text → Bool → Act
  set_threshold : Text → ℕ → Act
  drop_row : Text → Act
  create_all : List (Text × Row) → Act
  change_all : (Text × Row → Bool) → Change → Act
  drop_all : (Text × Row → Bool) → Act

unfoldable pub act : Act → Table → Answer
act (create_row id r) s = create id r s
act (create_checked id r) s = create_destination id r s
act (change id c) s = update id c s
act (toggle id enabled) s = toggle_enabled id enabled s
act (set_threshold id n) s = update_circuit_breaker_threshold id n s
act (drop_row id) s = delete id s
act (create_all rs) s = create_many rs s
act (change_all p c) s = (update_many p c s, none)
act (drop_all p) s = (delete_many p s, none)

pub act_all : List Act → Table → Table
act_all [] s = s
act_all (a ∷ acts) s = act_all acts (act a s).0

-- A change of both the type and the endpoint, or of neither; an endpoint is not empty.
abbrev Together : Option DestinationType → Option Text → Type 0
Together none none = Unit {0}
Together (some t) (some e) = is_empty e ≡ false
Together _ _ = ⊥

-- The endpoints of rows for `createMany`, which checks none.
unfoldable pub AllValid : List (Text × Row) → Type 0
AllValid [] = Unit {0}
AllValid ((id, r) ∷ rs) = (validate_endpoint r.type r.endpoint ≡ true) × AllValid rs

-- `createMany` gets valid rows, and `updateMany` neither a type nor an endpoint.
abbrev Whole : Act → Type 0
Whole (change id c) = Together c.type c.endpoint
Whole (create_all rs) = AllValid rs
Whole (change_all p c) = (c.type ≡ none) × (c.endpoint ≡ none)
Whole _ = Unit {0}

abbrev AllWhole : List Act → Type 0
AllWhole [] = Unit {0}
AllWhole (a ∷ acts) = Whole a × AllWhole acts

-- Every destination has an endpoint that its type allows.
unfoldable pub Sound : Table → Type 0
Sound s = (id : Text) (r : Row) → find id s ≡ some r → validate_endpoint r.type r.endpoint ≡ true

put-Sound :
    (id : Text) (r : Row) (s : Table)
    → validate_endpoint r.type r.endpoint ≡ true
    → Sound s
    → Sound (put id r s)
unfolding Sound
put-Sound id r s v h k q f = elim (Bool-cases (same_codes id k)) [
  | inl y ↦
      let e : some r ≡ some q = rw (find-put k id r s, y) at f in
      subst (λ x. validate_endpoint x.type x.endpoint ≡ true) (some_inj.0 e) v
  | inr y ↦ h k q (rw (find-put k id r s, y) at f)
]

remove-Sound : (id : Text) (s : Table) → Sound s → Sound (remove id s)
unfolding Sound
remove-Sound id s h k q f = elim (Bool-cases (same_codes id k)) [
  | inl y ↦ let e : none ≡ some q = rw (find-remove k id s, y) at f in cc
  | inr y ↦ h k q (rw (find-remove k id s, y) at f)
]

insert-Sound :
    (id : Text) (r : Row) (s : Table) (o : Option Row)
    → validate_endpoint r.type r.endpoint ≡ true
    → Sound s
    → Sound (insert id r s o).0
unfolding insert
insert-Sound id r s none v h = put-Sound id r s v h
insert-Sound id r s (some _) v h = h

create-Sound : (id : Text) (r : Row) (s : Table) → Sound s → Sound (create id r s).0
unfolding create
create-Sound id r s h = elim (Bool-cases (validate_endpoint r.type r.endpoint)) [
  | inl y ↦ rw y (insert-Sound id r s (find id s) y h)
  | inr y ↦ rw y h
]

lacks_http-invalid :
    (t : DestinationType) (endpoint : Text)
    → lacks_http t endpoint ≡ true
    → validate_endpoint t endpoint ≡ false
unfolding lacks_http validate_endpoint fits
lacks_http-invalid webhook endpoint h = ground arith
lacks_http-invalid audit endpoint h = ground arith
lacks_http-invalid database endpoint h = cc
lacks_http-invalid queue endpoint h = cc

-- The first check of `createDestination` refuses nothing that the second one lets through.
pub create_destination-create :
    (id : Text) (r : Row) (s : Table) → create_destination id r s ≡ create id r s
unfolding create_destination create
create_destination-create id r s = elim (Bool-cases (lacks_http r.type r.endpoint)) [
  | inl y ↦ rw (y, lacks_http-invalid r.type r.endpoint y) refl
  | inr y ↦ rw y refl
]

second_holds : (a b : Bool) → a ≡ false → not (a || b) ≡ false → b ≡ true
second_holds false b h k = ground arith
second_holds true b h k = cc

valid-Together :
    (a : Option DestinationType) (b : Option Text) (t : DestinationType) (endpoint : Text)
    → Together a b
    → refuses a b ≡ false
    → validate_endpoint t endpoint ≡ true
    → validate_endpoint (or_else a t) (or_else b endpoint) ≡ true
unfolding refuses
valid-Together none none t endpoint w f v = v
valid-Together (some u) (some e) t endpoint w f v =
    second_holds (is_empty e) (validate_endpoint u e) w f
valid-Together none (some e) t endpoint w f v = absurd w
valid-Together (some u) none t endpoint w f v = absurd w

changed-valid :
    (c : Change) (r : Row)
    → Together c.type c.endpoint
    → refuses c.type c.endpoint ≡ false
    → validate_endpoint r.type r.endpoint ≡ true
    → validate_endpoint (changed c r).type (changed c r).endpoint ≡ true
unfolding changed
changed-valid c r w f v = valid-Together c.type c.endpoint r.type r.endpoint w f v

write-Sound :
    (id : Text) (c : Change) (s : Table) (o : Option Row)
    → find id s ≡ o
    → Together c.type c.endpoint
    → refuses c.type c.endpoint ≡ false
    → Sound s
    → Sound (write id c s o).0
unfolding write Sound
write-Sound id c s none e w f h = h
write-Sound id c s (some r) e w f h =
    put-Sound id (changed c r) s (changed-valid c r w f (h id r e)) h

update-Sound :
    (id : Text) (c : Change) (s : Table)
    → Together c.type c.endpoint
    → Sound s
    → Sound (update id c s).0
unfolding update
update-Sound id c s w h = elim (Bool-cases (refuses c.type c.endpoint)) [
  | inl y ↦ rw y h
  | inr y ↦ rw y (write-Sound id c s (find id s) refl w y h)
]

threshold-Sound :
    (id : Text) (n : ℕ) (s : Table) → Sound s → Sound (update_circuit_breaker_threshold id n s).0
unfolding update_circuit_breaker_threshold
threshold-Sound id n s h = elim (Bool-cases (ltb n 1 || ltb 100 n)) [
  | inl y ↦ rw y h
  | inr y ↦ rw y (update-Sound id (record no_change { threshold = some n }) s tt h)
]

take_away-Sound : (id : Text) (s : Table) (o : Option Row) → Sound s → Sound (take_away id s o).0
unfolding take_away
take_away-Sound id s none h = h
take_away-Sound id s (some _) h = remove-Sound id s h

create_many-Sound :
    (rs : List (Text × Row)) (s : Table) → AllValid rs → Sound s → Sound (create_many rs s).0
unfolding create_many AllValid
create_many-Sound [] s a h = h
create_many-Sound ((id, r) ∷ rs) s a h = elim (Option-cases (find id s)) [
  | inl f ↦ rw (create_many, f) (create_many-Sound rs (put id r s) a.1 (put-Sound id r s a.0 h))
  | inr (q, f) ↦ rw (create_many, f) h
]

-- What a row was before.
find-update_many :
    (p : Text × Row → Bool) (c : Change) (k : Text) (s : Table) (q : Row)
    → c.type ≡ none
    → c.endpoint ≡ none
    → find k (update_many p c s) ≡ some q
    → (r : Row) × (find k s ≡ some r) × (q.type ≡ r.type) × (q.endpoint ≡ r.endpoint)
unfolding find update_many changed
find-update_many p c k [] q t e f = cc
find-update_many p c k ((j, r) ∷ s) q t e f = elim (Bool-cases (same_codes j k)) [
  | inl y ↦ elim (Bool-cases (p (j, r))) [
    | inl z ↦
        let g : some (changed c r) ≡ some q = rw (y, z) at f in
        (
          r,
          rw y refl,
          ap (λ x. x.type) (sym (some_inj.0 g)) ∙ rw t refl,
          ap (λ x. x.endpoint) (sym (some_inj.0 g)) ∙ rw e refl,
        )
    | inr z ↦
        let g : some r ≡ some q = rw (y, z) at f in
        (
          r,
          rw y refl,
          ap (λ x. x.type) (sym (some_inj.0 g)),
          ap (λ x. x.endpoint) (sym (some_inj.0 g)),
        )
  ]
  | inr y ↦ let (r', g, a, b) = find-update_many p c k s q t e (rw y at f) in (r', rw y g, a, b)
]

update_many-Sound :
    (p : Text × Row → Bool) (c : Change) (s : Table)
    → c.type ≡ none
    → c.endpoint ≡ none
    → Sound s
    → Sound (update_many p c s)
unfolding Sound
update_many-Sound p c s t e h k q f =
    let (r, g, a, b) = find-update_many p c k s q t e f in rw (a, b) (h k r g)

remove_all-Sound : (ids : List Text) (s : Table) → Sound s → Sound (remove_all ids s)
unfolding remove_all
remove_all-Sound [] s h = h
remove_all-Sound (id ∷ ids) s h = remove_all-Sound ids (remove id s) (remove-Sound id s h)

act-Sound : (a : Act) (s : Table) → Whole a → Sound s → Sound (act a s).0
unfolding toggle_enabled delete act delete_many
act-Sound (create_row id r) s w h = create-Sound id r s h
act-Sound (create_checked id r) s w h =
    rw (create_destination-create id r s) (create-Sound id r s h)
act-Sound (change id c) s w h = update-Sound id c s w h
act-Sound (toggle id enabled) s w h =
    update-Sound id (record no_change { enabled = some enabled }) s tt h
act-Sound (set_threshold id n) s w h = threshold-Sound id n s h
act-Sound (create_all rs) s w h = create_many-Sound rs s w h
act-Sound (change_all p c) s w h = update_many-Sound p c s w.0 w.1 h
act-Sound (drop_all p) s w h = remove_all-Sound (selected p s) s h
act-Sound (drop_row id) s w h = take_away-Sound id s (find id s) h

-- Through any calls of the repository, those of its base included, every destination keeps an
-- endpoint that its type allows, as long as no update of one changes the type without the endpoint,
-- or the endpoint without the type or to the empty text, no `updateMany` changes either, and
-- `createMany` is given endpoints that their types allow.
pub act_all-Sound : (acts : List Act) (s : Table) → AllWhole acts → Sound s → Sound (act_all acts s)
unfolding act_all
act_all-Sound [] s w h = h
act_all-Sound (a ∷ acts) s w h = act_all-Sound acts (act a s).0 w.1 (act-Sound a s w.0 h)

-- The endpoints that the repository lets through are those that its entity takes and more is asked
-- of: an audit has a scheme too, a database one of its own and a queue's name no blanks.
validate_endpoint-is_endpoint :
    (t : DestinationType) (endpoint : Text)
    → validate_endpoint t endpoint ≡ true
    → (is_endpoint t endpoint ≡ true) × (is_empty endpoint ≡ false)
unfolding validate_endpoint is_endpoint fits has_scheme
validate_endpoint-is_endpoint webhook endpoint h = (ground arith, ground arith)
validate_endpoint-is_endpoint audit endpoint h = (refl, ground arith)
validate_endpoint-is_endpoint database endpoint h = (refl, ground arith)
validate_endpoint-is_endpoint queue endpoint h = (refl, ground arith)
