-- ===== src/Repository/Destinations/Matching.antt =====
-- Which destinations the table finds for an event, against the entity.
use queue_forge.Repository.Destinations.{Row, matches}
use queue_forge.Base.Maps.{find}
use queue_forge.Destination.Entity.{Destination, Fields, Value, all_match, matches_event_filter}
use queue_forge.Destination.Entity.Laws.{AllHold, all_match-AllHold}
use queue_forge.Base.{
  Bool-cases, Text, [], false, inl, inr, none, refl, same_codes, same_codes→eq, some, subst, true,
  ◌↔◌, ◌∙◌, ◌∷◌, ◌≡◌,
}

-- What holds of each field holds of the one that is found.
AllHold-find :
    (event filters : Fields) (k : Text) (v : Value)
    → AllHold event filters
    → find k event ≡ some v
    → find k filters ≡ some v
unfolding find
AllHold-find [] filters k v h f = cc
AllHold-find ((j, w) ∷ event) filters k v h f = elim (Bool-cases (same_codes j k)) [
  | inl y ↦
      let e : some w ≡ some v = rw y at f in
      subst (λ x. find x filters ≡ some v) (same_codes→eq j k y) (h.0 ∙ e)
  | inr y ↦ AllHold-find event filters k v h.1 (rw y at f)
]

-- The entity matches a destination with filters exactly where the event has every filter with its
-- value, and the repository exactly where the filters have every field of the event; so a destination that filters for one field, which
-- the entity matches with every event that has it, is found for no event that has another field
-- too. Destinations without filters match every event on both sides.
pub matches-matches_event_filter :
    (event : Fields) (r : Row) (d : Destination)
    → d.event_filters ≡ r.event_filters
    → (r.event_filters ≡ none → (matches event r ≡ true) × (matches_event_filter event d ≡ true))
      × ((filters : Fields)
          → r.event_filters ≡ some filters
          → ((matches event r ≡ true) ↔ AllHold event filters)
            × ((matches_event_filter event d ≡ true) ↔ AllHold filters event))
      × ((k j : Text) (v w : Value)
          → r.event_filters ≡ some ((k, v) ∷ [])
          → find k event ≡ some v
          → find j event ≡ some w
          → same_codes k j ≡ false
          → (matches_event_filter event d ≡ true) × (matches event r ≡ false))
unfolding matches matches_event_filter find
matches-matches_event_filter event r d same = (
  λ n. rw (same, n) (refl, refl),
  λ filters f. rw (same, f) (all_match-AllHold event filters, all_match-AllHold filters event),
  λ k j v w f a b u.
      let yes = (all_match-AllHold ((k, v) ∷ []) event).1 (a, tt) in
      rw (same, f)
        (
          yes,
          elim (Bool-cases (all_match event ((k, v) ∷ []))) [
            | inl y ↦
                let found =
                  AllHold-find event ((k, v) ∷ []) j w ((all_match-AllHold event ((k, v) ∷ [])).0 y)
                    b in
                let g : none ≡ some w = rw u at found in cc
            | inr y ↦ y
          ],
        ),
)
