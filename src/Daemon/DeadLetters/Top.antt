-- ===== src/Daemon/DeadLetters/Top.antt =====
-- The tallies of the dead letter queue against a count.
use queue_forge.Base.Maps.{Apart, put-Apart, find-put, find}
use queue_forge.Daemon.DeadLetters.{sort_top, sort, insert, tally, add_to, Dead}
use queue_forge.Base.{
  Bool-cases, List, Option, Text, [], arith, drop, if◌then◌else◌, inl, inr, leb, leb→le, length,
  length-take, min, none, or_else, refl, same_codes, same_codes_refl, same_codes→eq, some, suc,
  take-append-drop, ℕ, ◌++◌, ◌+◌, ◌∙◌, ◌∷◌, ◌≡◌, ◌≤◌,
}

-- How many of the deliveries have a key.
pub occurrences : (Dead → Text) → Text → List Dead → ℕ
occurrences key k [] = 0
occurrences key k (d ∷ ds) =
    let rest = occurrences key k ds in if same_codes (key d) k then suc rest else rest

-- A tally says a number of occurrences, or nothing of a key that does not occur.
abbrev pub Says : ℕ → Option ℕ → Type 0
Says n o = or_else o 0 ≡ n

find-add_to :
    (k j : Text) (m : List (Text × ℕ))
    → or_else (find k (add_to j m)) 0
      ≡ (if same_codes j k then suc (or_else (find k m) 0) else or_else (find k m) 0)
unfolding add_to
find-add_to k j m = elim (Bool-cases (same_codes j k)) [
  | inl y ↦ rw (find-put k j _ m, y) (rw (same_codes→eq j k y) refl)
  | inr y ↦ rw (find-put k j _ m, y) refl
]

find-tally :
    (key : Dead → Text) (k : Text) (ds : List Dead) (m : List (Text × ℕ))
    → or_else (find k (tally key ds m)) 0 ≡ or_else (find k m) 0 + occurrences key k ds
unfolding tally occurrences
find-tally key k [] m = omega arith
find-tally key k (d ∷ ds) m =
    let e = find-tally key k ds (add_to (key d) m) in
    let a = find-add_to k (key d) m in
    elim (Bool-cases (same_codes (key d) k)) [
      | inl y ↦ rw (e, a, y) (omega arith)
      | inr y ↦ rw (e, a, y) (omega arith)
    ]

tally-Apart :
    (key : Dead → Text) (ds : List Dead) (m : List (Text × ℕ)) → Apart m → Apart (tally key ds m)
unfolding tally add_to
tally-Apart key [] m a = a
tally-Apart key (d ∷ ds) m a = tally-Apart key ds _ (put-Apart (key d) _ m a)

find-insert :
    (k j : Text) (n : ℕ) (m : List (Text × ℕ))
    → find j m ≡ none
    → find k (insert (j, n) m) ≡ (if same_codes j k then some n else find k m)
unfolding insert find
find-insert k j n [] a = refl
find-insert k j n ((i, v) ∷ m) a = ground (
  arith,
  same_codes→eq i k,
  same_codes→eq j k,
  same_codes_refl k,
  same_codes_refl j,
  find-insert k j n m,
)

find-sort : (k : Text) (m : List (Text × ℕ)) → Apart m → find k (sort m) ≡ find k m
unfolding sort find Apart
find-sort k [] a = refl
find-sort k ((j, n) ∷ m) a =
    find-insert k j n (sort m) (find-sort j m a.1 ∙ a.0) ∙ rw (find-sort k m a.1) refl

-- From the most frequent to the least.
abbrev AtMost : ℕ → List (Text × ℕ) → Type 0
AtMost n [] = Unit {0}
AtMost n (e ∷ es) = (e.1 ≤ n) × AtMost n es

abbrev pub IsRanked : List (Text × ℕ) → Type 0
IsRanked [] = Unit {0}
IsRanked (e ∷ es) = AtMost e.1 es × IsRanked es

AtMost-trans : (m n : ℕ) (es : List (Text × ℕ)) → m ≤ n → AtMost m es → AtMost n es
AtMost-trans m n [] l a = tt
AtMost-trans m n (e ∷ es) l a = (omega (arith, a.0), AtMost-trans m n es l a.1)

insert-AtMost :
    (n : ℕ) (e : Text × ℕ) (es : List (Text × ℕ)) → e.1 ≤ n → AtMost n es → AtMost n (insert e es)
unfolding insert
insert-AtMost n e [] l a = (l, tt)
insert-AtMost n e (f ∷ es) l a = elim (Bool-cases (leb f.1 e.1)) [
  | inl y ↦ rw y (l, a)
  | inr y ↦ rw y (a.0, insert-AtMost n e es l a.1)
]

insert-IsRanked : (e : Text × ℕ) (es : List (Text × ℕ)) → IsRanked es → IsRanked (insert e es)
unfolding insert
insert-IsRanked e [] r = (tt, tt)
insert-IsRanked e (f ∷ es) r = elim (Bool-cases (leb f.1 e.1)) [
  | inl y ↦ let l = leb→le f.1 e.1 y in rw y ((l, AtMost-trans f.1 e.1 es l r.0), r)
  | inr y ↦ rw y (insert-AtMost f.1 e es (ground arith) r.0, insert-IsRanked e es r.1)
]

sort-IsRanked : (es : List (Text × ℕ)) → IsRanked (sort es)
unfolding sort
sort-IsRanked [] = tt
sort-IsRanked (e ∷ es) = insert-IsRanked e (sort es) (sort-IsRanked es)

-- A top list is the front, of five at most, of a list of all keys ranked from the most frequent to
-- the least, in which a key stands with the number of deliveries that have it, or not at all where
-- none has it.
pub sort_top_counts :
    (key : Dead → Text) (ds : List Dead)
    → (others : List (Text × ℕ)) × IsRanked (sort_top key ds ++ others)
      × ((k : Text) → Says (occurrences key k ds) (find k (sort_top key ds ++ others)))
      × (length (sort_top key ds) ≡ min 5 (length (sort_top key ds ++ others)))
unfolding sort_top Apart find
sort_top_counts key ds =
    let m = tally key ds [] in
    let whole = take-append-drop 5 (sort m) in
    (
      drop 5 (sort m),
      rw whole (sort-IsRanked m),
      λ k.
          rw whole
            (rw (find-sort k m (tally-Apart key ds [] tt)) (find-tally key k ds [] ∙ omega arith)),
      rw whole (length-take 5 (sort m)),
    )
