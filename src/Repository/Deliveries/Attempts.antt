-- ===== src/Repository/Deliveries/Attempts.antt =====
-- The numbering of the stored attempts.
use queue_forge.Delivery.Attempt.{bad_status}
use queue_forge.Repository.Deliveries.{
  Tables, record_for, record_attempt, AttemptRow, bad_response, update_row, Row, find_by_id,
}
use queue_forge.Base.{
  Bool-cases, List, Option, Text, [], ap, arith, false, if◌then◌else◌, inl, inr, none, or_else,
  refl, same_codes, same_codes_refl, same_codes→eq, some, subst, suc, true, ℕ, ◌++◌, ◌∙◌, ◌∷◌, ◌≡◌,
}
use mathlib.Core.Option.{some_inj}

find_by_id-id :
    (id : Text) (rs : List Row) (r : Row) → find_by_id id rs ≡ some r → same_codes r.id id ≡ true
unfolding find_by_id
find_by_id-id id [] r h = cc
find_by_id-id id (q ∷ rs) r h = elim (Bool-cases (same_codes q.id id)) [
  | inl e ↦
      let same : q ≡ r = some_inj.0 (ground (arith, e, h)) in
      subst (λ (x : Row). same_codes x.id id ≡ true) same e
  | inr e ↦ find_by_id-id id rs r (ground (arith, e, h))
]

unfoldable pub option_map : (Row → Row) → Option Row → Option Row
option_map f none = none
option_map f (some r) = some (f r)

-- An update that leaves the id alone is what is found afterwards, and changes no other row.
pub find_by_id-update_row :
    (id k : Text) (f : Row → Row) (rs : List Row)
    → ((q : Row) → (f q).id ≡ q.id)
    → find_by_id k (update_row id f rs)
      ≡ (if same_codes id k then option_map f (find_by_id k rs) else find_by_id k rs)
unfolding find_by_id update_row option_map
find_by_id-update_row id k f [] h = ground arith
find_by_id-update_row id k f (r ∷ rs) h = ground (
  arith,
  h r,
  same_codes→eq r.id id,
  same_codes→eq id k,
  same_codes→eq r.id k,
  same_codes_refl r.id,
  same_codes_refl k,
  find_by_id-update_row id k f rs h,
)

bad_response-status : (status : Option ℕ) → bad_response status ≡ bad_status status
unfolding bad_response
bad_response-status none = refl
bad_response-status (some c) = refl

-- The attempt that is stored next for a row.
abbrev next_attempt : Row → Option ℕ → Option ℕ → Option Text → AttemptRow
next_attempt r status time message = record {
  delivery_id = r.id;
  attempt_number = suc r.retry_count;
  response_status = status;
  response_time_ms = or_else time 0;
  error_message = message;
}

-- An attempt is recorded exactly where its delivery is stored and its response status, if it has
-- one, is from 100 to 599. It is stored last, with the number after the delivery's count, which
-- becomes the count; no other delivery changes.
record_attempt_next :
    (id k : Text) (status time : Option ℕ) (message : Option Text) (t : Tables) (r : Row)
    → find_by_id id t.deliveries ≡ some r
    → (bad_status status ≡ true → record_attempt id status time message t ≡ none)
      × (bad_status status ≡ false
          → (t' : Tables) × (record_attempt id status time message t ≡ some t')
            × (t'.attempts ≡ t.attempts ++ next_attempt r status time message ∷ [])
            × (find_by_id id t'.deliveries ≡ some (record r { retry_count = suc r.retry_count }))
            × (same_codes id k ≡ false → find_by_id k t'.deliveries ≡ find_by_id k t.deliveries))
unfolding record_attempt record_for option_map
record_attempt_next id k status time message t r e =
    let n = find_by_id-id id t.deliveries r e in
    let same : r.id ≡ id = same_codes→eq r.id id n in
    let count = λ (q : Row). record q { retry_count = suc r.retry_count } in
    (
      λ b. rw e (rw (bad_response-status status ∙ b) refl),
      λ b. rw e (
          rw (bad_response-status status ∙ b) (
            record {
              deliveries = update_row r.id count t.deliveries;
              attempts = t.attempts ++ next_attempt r status time message ∷ [];
            },
            refl,
            refl,
            find_by_id-update_row r.id id count t.deliveries (λ q. refl) ∙ rw (n, e) refl,
            λ d.
                find_by_id-update_row r.id k count t.deliveries (λ q. refl)
                ∙ rw (ap (λ (x : Text). same_codes x k) same ∙ d) refl,
          )),
    )
