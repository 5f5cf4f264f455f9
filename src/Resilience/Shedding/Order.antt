-- ===== src/Resilience/Shedding/Order.antt =====
-- Shedding splits the jobs into those that go and those that stay.
use mathlib.Core.Option.{some_inj}
use queue_forge.Base.Ratios.{Ratio}
use queue_forge.Resilience.Shedding.{
  sheds_none, priority, random, keep_all, fifo, SheddingStrategy, set, count_to_shed,
  select_jobs_to_shed, arranged, sort, insert, shuffle_from, swap, nth,
}
use queue_forge.Base.{
  Bool, Bool-cases, List, Option-cases, [], ap, arith, drop, false, inl, inr, leb, leb→le, length,
  length-take, min, refl, some, subst, suc, sym, take, take-append-drop, true, zero, ℕ, ◌*◌, ◌++◌,
  ◌+◌, ◌-◌, ◌/◌, ◌<◌, ◌∙◌, ◌∷◌, ◌≡◌, ◌≢◌, ◌≤◌,
}

abbrev one : Bool → ℕ
one true = 1
one false = 0

count_to_shed_zero : (percentage : ℕ) → 0 ≡ count_to_shed 0 percentage
unfolding count_to_shed
count_to_shed_zero percentage = omega arith

sheds_none-false : (s : SheddingStrategy) → s ≢ keep_all → sheds_none s ≡ false
sheds_none-false keep_all k = absurd (k refl)
sheds_none-false _ k = refl

module _ {ℓ} {A : Type ℓ} where
  -- Every element has at least the key.
  abbrev pub AtLeast : (A → ℕ) → ℕ → List A → Type 0
  AtLeast key n [] = Unit {0}
  AtLeast key n (y ∷ ys) = (n ≤ key y) × AtLeast key n ys

  -- No element of the first list has a greater key than one of the second.
  abbrev pub AllLe : (A → ℕ) → List A → List A → Type 0
  AllLe key [] ys = Unit {0}
  AllLe key (x ∷ xs) ys = AtLeast key (key x) ys × AllLe key xs ys

  abbrev IsSorted : (A → ℕ) → List A → Type 0
  IsSorted key [] = Unit {0}
  IsSorted key (x ∷ xs) = AtLeast key (key x) xs × IsSorted key xs

  -- How many elements satisfy a test.
  abbrev pub count : (A → Bool) → List A → ℕ
  count p [] = 0
  count p (x ∷ xs) = one (p x) + count p xs

  count-append : (p : A → Bool) (xs ys : List A) → count p (xs ++ ys) ≡ count p xs + count p ys
  count-append p [] ys = omega arith
  count-append p (x ∷ xs) ys = omega (arith, count-append p xs ys)

  count-set :
      (p : A → Bool) (i : ℕ) (x y : A) (xs : List A)
      → nth xs i ≡ some x
      → count p (set i y xs) + one (p x) ≡ count p xs + one (p y)
  unfolding nth set
  count-set p i x y [] h = cc
  count-set p zero x y (z ∷ xs) h =
      let e : z ≡ x = some_inj.0 h in omega (arith, ap (λ t. one (p t)) e)
  count-set p (suc i) x y (z ∷ xs) h = omega (arith, count-set p i x y xs h)

  nth-set : (i j : ℕ) (y : A) (xs : List A) → nth xs j ≡ some y → nth (set i y xs) j ≡ some y
  unfolding nth set
  nth-set i j y [] h = h
  nth-set zero zero y (x ∷ xs) h = refl
  nth-set zero (suc j) y (x ∷ xs) h = h
  nth-set (suc i) zero y (x ∷ xs) h = h
  nth-set (suc i) (suc j) y (x ∷ xs) h = nth-set i j y xs h

  count-swap : (p : A → Bool) (i j : ℕ) (xs : List A) → count p (swap i j xs) ≡ count p xs
  unfolding swap
  count-swap p i j xs = elim (Option-cases (nth xs i)) [
    | inl e ↦ rw e refl
    | inr (x, e) ↦ elim (Option-cases (nth xs j)) [
      | inl e' ↦ rw (e, e') refl
      | inr (y, e') ↦
          rw (e, e')
            (omega
              (arith, count-set p i x y xs e, count-set p j y x (set i y xs) (nth-set i j y xs e')))
    ]
  ]

  count-shuffle_from :
      (p : A → Bool) (draw : ℕ → Ratio) (i : ℕ) (xs : List A)
      → count p (shuffle_from draw i xs) ≡ count p xs
  unfolding shuffle_from
  count-shuffle_from p draw zero xs = refl
  count-shuffle_from p draw (suc i) xs = count-shuffle_from p draw i _ ∙ count-swap p (suc i) _ xs

  count-insert :
      (p : A → Bool) (key : A → ℕ) (x : A) (xs : List A)
      → count p (insert key x xs) ≡ one (p x) + count p xs
  unfolding insert
  count-insert p key x [] = refl
  count-insert p key x (y ∷ ys) = ground (arith, count-insert p key x ys)

  count-sort : (p : A → Bool) (key : A → ℕ) (xs : List A) → count p (sort key xs) ≡ count p xs
  unfolding sort
  count-sort p key [] = refl
  count-sort p key (x ∷ xs) = omega (arith, count-insert p key x (sort key xs), count-sort p key xs)

  count-arranged :
      (p : A → Bool) (s : SheddingStrategy) (key : A → ℕ) (draw : ℕ → Ratio) (xs : List A)
      → count p (arranged s key draw xs) ≡ count p xs
  unfolding arranged
  count-arranged p fifo key draw xs = refl
  count-arranged p random key draw xs = count-shuffle_from p draw (length xs - 1) xs
  count-arranged p priority key draw xs = count-sort p key xs
  count-arranged p keep_all key draw xs = refl

  length-count : (xs : List A) → length xs ≡ count (λ x. true) xs
  length-count [] = refl
  length-count (x ∷ xs) = omega (arith, length-count xs)

  AtLeast-le : (key : A → ℕ) (m n : ℕ) (xs : List A) → m ≤ n → AtLeast key n xs → AtLeast key m xs
  AtLeast-le key m n [] h a = tt
  AtLeast-le key m n (x ∷ xs) h a = (omega (arith, a.0), AtLeast-le key m n xs h a.1)

  AtLeast-insert :
      (key : A → ℕ) (n : ℕ) (x : A) (xs : List A)
      → n ≤ key x
      → AtLeast key n xs
      → AtLeast key n (insert key x xs)
  unfolding insert
  AtLeast-insert key n x [] h a = (h, tt)
  AtLeast-insert key n x (y ∷ ys) h a = elim (Bool-cases (leb (key x) (key y))) [
    | inl e ↦ rw e (h, a)
    | inr e ↦ rw e (a.0, AtLeast-insert key n x ys h a.1)
  ]

  insert-IsSorted :
      (key : A → ℕ) (x : A) (xs : List A) → IsSorted key xs → IsSorted key (insert key x xs)
  unfolding insert
  insert-IsSorted key x [] s = (tt, tt)
  insert-IsSorted key x (y ∷ ys) s = elim (Bool-cases (leb (key x) (key y))) [
    | inl e ↦
        let le = leb→le (key x) (key y) e in
        rw e ((le, AtLeast-le key (key x) (key y) ys le s.0), s)
    | inr e ↦
        rw e (AtLeast-insert key (key y) x ys (ground arith) s.0, insert-IsSorted key x ys s.1)
  ]

  sort-IsSorted : (key : A → ℕ) (xs : List A) → IsSorted key (sort key xs)
  unfolding sort
  sort-IsSorted key [] = tt
  sort-IsSorted key (x ∷ xs) = insert-IsSorted key x (sort key xs) (sort-IsSorted key xs)

  AtLeast-drop :
      (key : A → ℕ) (m n : ℕ) (xs : List A) → AtLeast key m xs → AtLeast key m (drop n xs)
  AtLeast-drop key m zero xs a = a
  AtLeast-drop key m (suc n) [] a = tt
  AtLeast-drop key m (suc n) (x ∷ xs) a = AtLeast-drop key m n xs a.1

  IsSorted-AllLe :
      (key : A → ℕ) (n : ℕ) (xs : List A) → IsSorted key xs → AllLe key (take n xs) (drop n xs)
  IsSorted-AllLe key zero xs s = tt
  IsSorted-AllLe key (suc n) [] s = tt
  IsSorted-AllLe key (suc n) (x ∷ xs) s =
      (AtLeast-drop key (key x) n xs s.0, IsSorted-AllLe key n xs s.1)

  select_jobs_to_shed-take :
      (s : SheddingStrategy) (key : A → ℕ) (draw : ℕ → Ratio) (jobs : List A) (percentage : ℕ)
      → 0 < percentage
      → s ≢ keep_all
      → select_jobs_to_shed s key draw jobs percentage
        ≡ take (count_to_shed (length jobs) percentage) (arranged s key draw jobs)
  unfolding select_jobs_to_shed
  select_jobs_to_shed-take s key draw [] percentage h k =
      ap (λ (n : ℕ). take n (arranged s key draw [])) (count_to_shed_zero percentage)
  select_jobs_to_shed-take s key draw (x ∷ xs) percentage h k =
      rw (sheds_none-false s k) (ground arith)

  -- For a positive percentage and every strategy but NONE, as many jobs are shed as the percentage
  -- says, rounded up and at most all. The shed jobs and some others are together the given jobs,
  -- each as often as it was given. By FIFO the shed ones come first in the given order, and by
  -- PRIORITY none of them has a greater priority than one that stays.
  pub select_jobs_to_shed_splits :
      (s : SheddingStrategy) (key : A → ℕ) (draw : ℕ → Ratio) (jobs : List A) (percentage : ℕ)
      → 0 < percentage
      → s ≢ keep_all
      → let shed = select_jobs_to_shed s key draw jobs percentage in
        (length shed ≡ min (length jobs) ((length jobs * percentage + 99) / 100))
        × ((kept : List A) × ((p : A → Bool) → count p (shed ++ kept) ≡ count p jobs)
            × (s ≡ fifo → shed ++ kept ≡ jobs)
            × (s ≡ priority → AllLe key shed kept))
  unfolding count_to_shed arranged
  select_jobs_to_shed_splits s key draw jobs percentage h k =
      let n = count_to_shed (length jobs) percentage in
      let xs = arranged s key draw jobs in
      let same : length xs ≡ length jobs =
        length-count xs ∙ count-arranged (λ x. true) s key draw jobs ∙ sym (length-count jobs) in
      rw (select_jobs_to_shed-take s key draw jobs percentage h k) (
        omega (arith, length-take n xs, same),
        (
          drop n xs,
          λ p. ap (count p) (take-append-drop n xs) ∙ count-arranged p s key draw jobs,
          λ e. take-append-drop n xs ∙ ap (λ t. arranged t key draw jobs) e,
          λ e.
              subst
                (λ t.
                  AllLe key (take n (arranged t key draw jobs)) (drop n (arranged t key draw jobs)))
                (sym e) (IsSorted-AllLe key n (sort key jobs) (sort-IsSorted key jobs)),
        ),
      )
