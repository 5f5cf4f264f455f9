-- ===== src/Daemon/Election/Commands/Reign.antt =====
-- Who can be the leader while a node has the lease, in every order of the nodes' commands.
use queue_forge.Daemon.Election.Commands.{
  Member, Command, sets, asks, extends, asks_to_resign, deletes, fails, won, told, told_last,
  wait_for, time_of, Stays, AllStay, Cluster, moved_on, extended, deleted, act, act_all, Settled,
  Gains,
}
use queue_forge.Daemon.Election.{lease_ttl, same_owner, Redis}
use queue_forge.Base.{
  Bool, Bool-cases, List, Text, [], ap, arith, false, inl, inr, none, refl, same_codes,
  same_codes_refl, same_codes→eq, some, sym, suc, true, zero, ℕ, ◌&&◌, ◌+◌, ◌<◌, ◌∙◌, ◌∷◌, ◌≡◌, ◌≤◌,
}

module _ (R : Redis) where
  -- From now on and up to a time the key has the id of the node; and another node is no leader.
  Reigns : Text → Text → ℕ → Cluster R → Type 0
  unfolding Settled
  Reigns i k until x =
      ((t : ℕ) → x.now ≤ t → t < until → R.get t x.store ≡ some i)
      × Settled R i x
      × ((x.members k).is_leader ≡ false)

  -- What the node of a command may be after it.
  abbrev Fits : Text → Text → Text → Member → Type 0
  Fits i k j n =
      (n.will_delete ≡ 0)
      × (same_codes i j ≡ false → n.will_extend ≡ 0)
      × (same_codes j k ≡ true → n.is_leader ≡ false)

  moved_on-Reigns :
      (i k : Text) (until wait : ℕ) (j : Text) (n : Member) (s : R.Store) (x : Cluster R)
      → Settled R i x
      → (x.members k).is_leader ≡ false
      → Fits i k j n
      → ((t : ℕ) → x.now + wait ≤ t → t < until → R.get t s ≡ some i)
      → Reigns i k until (moved_on R wait j n s x)
  unfolding Reigns Settled moved_on
  moved_on-Reigns i k until wait j n s x c l (d, e, f) g = (
    g,
    λ m. elim (Bool-cases (same_codes j m)) [
      | inl y ↦ rw y (d, λ o. e (rw (same_codes→eq j m y) o))
      | inr y ↦ rw y (c m)
    ],
    elim (Bool-cases (same_codes j k)) [ inl y ↦ rw y (f y) | inr y ↦ rw y l ],
  )

  as_before :
      (i k j : Text) (x : Cluster R)
      → Settled R i x
      → (x.members k).is_leader ≡ false
      → Fits i k j (x.members j)
  unfolding Settled
  as_before i k j x c l = ((c j).0, (c j).1, λ y. rw (same_codes→eq j k y) l)

  -- The node that reigns is not the other one.
  apart :
      (i j k : Text) → same_codes i k ≡ false → same_codes i j ≡ true → same_codes j k ≡ true → ⊥
  apart i j k n a b =
      let e : same_codes i k ≡ true = rw (same_codes→eq i j a) b in ground (arith, e, n)

  told-Fits :
      (i k j : Text) (b : Bool) (n : Member)
      → same_codes i k ≡ false
      → same_codes i j ≡ b
      → Fits i k j n
      → Fits i k j (told b n)
  unfolding told
  told-Fits i k j true n a e (d, f, l) =
      (d, λ o. absurd (ground (arith, e, o)), λ y. absurd (apart i j k a e y))
  told-Fits i k j false n a e (d, f, l) = (d, f, λ y. refl)

  told_last-Fits :
      (i k j : Text) (b : Bool) (n : Member) → b ≡ false → Fits i k j n → Fits i k j (told_last b n)
  unfolding told_last
  told_last-Fits i k j true n e (d, f, l) = cc
  told_last-Fits i k j false n e (d, f, l) = (d, f, λ y. refl)

  extended-Reigns :
      (i k : Text) (until wait : ℕ) (j : Text) (m : ℕ) (x : Cluster R)
      → same_codes i k ≡ false
      → (x.members j).will_extend ≡ m
      → x.now + wait < until
      → until ≤ x.now + lease_ttl
      → Reigns i k until x
      → Reigns i k until (extended R wait j m x)
  unfolding extended Reigns Settled
  extended-Reigns i k until wait j zero x a e l u h =
      moved_on-Reigns i k until wait j (x.members j) x.store x h.1 h.2 (as_before i k j x h.1 h.2)
        (λ t b c. h.0 t (omega (arith, b)) c)
  extended-Reigns i k until wait j (suc m) x a e l u h = elim (Bool-cases (same_codes i j)) [
    | inl y ↦
        moved_on-Reigns i k until wait j _ _ x h.1 h.2
          ((h.1 j).0, λ o. absurd (ground (arith, y, o)), λ z. absurd (apart i j k a y z))
          (λ t b c.
            R.get-pexpire (x.now + wait) lease_ttl t i x.store (h.0 (x.now + wait) (omega arith) l)
              b (omega (arith, u, c)))
    | inr y ↦ absurd (omega (arith, (h.1 j).1 y, e))
  ]

  deleted-Reigns :
      (i k : Text) (until wait : ℕ) (j : Text) (m : ℕ) (x : Cluster R)
      → (x.members j).will_delete ≡ m
      → Reigns i k until x
      → Reigns i k until (deleted R wait j m x)
  unfolding deleted Reigns Settled
  deleted-Reigns i k until wait j zero x e h =
      moved_on-Reigns i k until wait j (x.members j) x.store x h.1 h.2 (as_before i k j x h.1 h.2)
        (λ t b c. h.0 t (omega (arith, b)) c)
  deleted-Reigns i k until wait j (suc m) x e h = absurd (omega (arith, (h.1 j).0, e))

  act-Reigns :
      (a : Command) (i k : Text) (until : ℕ) (x : Cluster R)
      → same_codes i k ≡ false
      → Stays i a
      → x.now + wait_for a < until
      → until ≤ x.now + lease_ttl
      → Reigns i k until x
      → Reigns i k until (act R a x)
  unfolding act Stays wait_for won same_owner Reigns
  act-Reigns (sets wait j) i k until x n o l u h =
      rw (R.set_nx-taken (x.now + wait) lease_ttl j i x.store (h.0 (x.now + wait) (omega arith) l))
        (moved_on-Reigns i k until wait j (x.members j) x.store x h.1 h.2
          (as_before i k j x h.1 h.2) (λ t b c. h.0 t (omega (arith, b)) c))
  act-Reigns (asks wait j) i k until x n o l u h = rw (h.0 (x.now + wait) (omega arith) l) (
      moved_on-Reigns i k until wait j _ x.store x h.1 h.2
        (told-Fits i k j (same_codes i j) (x.members j) n refl (as_before i k j x h.1 h.2))
        (λ t b c. h.0 t (omega (arith, b)) c))
  act-Reigns (extends wait j) i k until x n o l u h =
      extended-Reigns i k until wait j (x.members j).will_extend x n refl l u h
  act-Reigns (asks_to_resign wait j) i k until x n o l u h =
      rw (h.0 (x.now + wait) (omega arith) l) (
        moved_on-Reigns i k until wait j _ x.store x h.1 h.2
          (told_last-Fits i k j (same_codes i j && (x.members j).is_leader) (x.members j)
            (rw o refl) (as_before i k j x h.1 h.2))
          (λ t b c. h.0 t (omega (arith, b)) c))
  act-Reigns (deletes wait j) i k until x n o l u h =
      deleted-Reigns i k until wait j (x.members j).will_delete x refl h
  act-Reigns (fails wait j) i k until x n o l u h =
      let (d, f, _) = as_before i k j x h.1 h.2 in
      moved_on-Reigns i k until wait j _ x.store x h.1 h.2 (d, f, λ y. refl)
        (λ t b c. h.0 t (omega (arith, b)) c)

  extended-now :
      (wait : ℕ) (i : Text) (m : ℕ) (x : Cluster R) → (extended R wait i m x).now ≡ x.now + wait
  unfolding extended moved_on
  extended-now wait i zero x = refl
  extended-now wait i (suc m) x = refl

  deleted-now :
      (wait : ℕ) (i : Text) (m : ℕ) (x : Cluster R) → (deleted R wait i m x).now ≡ x.now + wait
  unfolding deleted moved_on
  deleted-now wait i zero x = refl
  deleted-now wait i (suc m) x = refl

  itself : (i j : Text) → i ≡ j → same_codes i j ≡ true
  itself i j e = rw e (same_codes_refl j)

  step-now : (a : Command) (x : Cluster R) → (act R a x).now ≡ x.now + wait_for a
  unfolding act moved_on wait_for
  step-now (sets wait i) x = refl
  step-now (asks wait i) x = refl
  step-now (extends wait i) x = extended-now wait i (x.members i).will_extend x
  step-now (asks_to_resign wait i) x = refl
  step-now (deletes wait i) x = deleted-now wait i (x.members i).will_delete x
  step-now (fails wait i) x = refl

  act_all-Reigns :
      (as' : List Command) (i k : Text) (until : ℕ) (x : Cluster R)
      → same_codes i k ≡ false
      → AllStay i as'
      → x.now + time_of as' < until
      → until ≤ x.now + lease_ttl
      → Reigns i k until x
      → ((act_all R as' x).now < until) × Reigns i k until (act_all R as' x)
  unfolding act_all AllStay time_of
  act_all-Reigns [] i k until x n o l u h = (omega (arith, l), h)
  act_all-Reigns (a ∷ as') i k until x n o l u h =
      let e = step-now a x in
      act_all-Reigns as' i k until (act R a x) n o.1 (omega (arith, l, e)) (omega (arith, u, e))
        (act-Reigns a i k until x n o.0 (omega (arith, l)) u h)

  renewed :
      (i k : Text) (wait : ℕ) (j : Text) (m n : ℕ) (x : Cluster R)
      → i ≡ j
      → m ≡ suc n
      → R.get (x.now + wait) x.store ≡ some i
      → Settled R i x
      → same_codes i k ≡ false
      → (x.members k).is_leader ≡ false
      → Reigns i k (x.now + wait + lease_ttl) (extended R wait j m x)
  unfolding extended Settled
  renewed i k wait j zero n x e z g c a l = absurd (omega (arith, z))
  renewed i k wait j (suc m) n x e z g c a l =
      moved_on-Reigns i k (x.now + wait + lease_ttl) wait j _ _ x c l
        (
          (c j).0,
          λ o. absurd (ground (arith, itself i j e, o)),
          λ y. absurd (apart i j k a (itself i j e) y),
        )
        (λ t b d. R.get-pexpire (x.now + wait) lease_ttl t i x.store g b d)

  Gains-Reigns :
      (a : Command) (i k : Text) (x : Cluster R)
      → Gains R i a x
      → Settled R i x
      → same_codes i k ≡ false
      → (x.members k).is_leader ≡ false
      → Reigns i k (x.now + wait_for a + lease_ttl) (act R a x)
  unfolding act Gains wait_for won Settled
  Gains-Reigns (sets wait j) i k x (e, f) c n l =
      moved_on-Reigns i k (x.now + wait + lease_ttl) wait j _ _ x c l
        (
          rw (R.set_nx-free (x.now + wait) lease_ttl j x.store f) (c j).0,
          λ o. absurd (ground (arith, itself i j e, o)),
          λ y. absurd (apart i j k n (itself i j e) y),
        )
        (λ t b d.
          R.get-set_nx (x.now + wait) lease_ttl t j x.store f b d
          ∙ ap (λ (y : Text). some y) (sym e))
  Gains-Reigns (extends wait j) i k x (e, f, m) c n l =
      renewed i k wait j (x.members j).will_extend m.0 x e m.1 f c n l
  Gains-Reigns (asks wait j) i k x g c n l = absurd g
  Gains-Reigns (asks_to_resign wait j) i k x g c n l = absurd g
  Gains-Reigns (deletes wait j) i k x g c n l = absurd g
  Gains-Reigns (fails wait j) i k x g c n l = absurd g

  -- At most one node is made the leader at a time, in every order of the commands of nodes with a
  -- client of their own: where one becomes the leader by its SET or its PEXPIRE, then for the 30
  -- seconds of its lease no node that was none becomes a leader beside it, whatever commands come in
  -- between, and the key has its id, as long as it does not begin to resign and, when it became the
  -- leader, no other node's call stood between its GET and the command after it, and no resignation
  -- did.
  pub act_all_exclusive :
      (i k : Text) (a : Command) (x : Cluster R) (as' : List Command)
      → Gains R i a x
      → Settled R i x
      → same_codes i k ≡ false
      → (x.members k).is_leader ≡ false
      → AllStay i as'
      → time_of as' < lease_ttl
      → let y = act_all R as' (act R a x) in
        ((y.members k).is_leader ≡ false) × (R.get y.now y.store ≡ some i)
  unfolding Reigns
  act_all_exclusive i k a x as' g c n l o t =
      let e = step-now a x in
      let (u, r) =
        act_all-Reigns as' i k (x.now + wait_for a + lease_ttl) (act R a x) n o
          (omega (arith, t, e)) (omega (arith, e)) (Gains-Reigns a i k x g c n l) in
      (r.2, r.0 (act_all R as' (act R a x)).now (omega arith) u)

  extended-leads :
      (wait : ℕ) (i : Text) (m n : ℕ) (x : Cluster R)
      → m ≡ suc n
      → ((extended R wait i m x).members i).is_leader ≡ true
  unfolding extended moved_on
  extended-leads wait i zero n x z = absurd (omega (arith, z))
  extended-leads wait i (suc m) n x z = rw (same_codes_refl i) refl

  extended-others :
      (wait : ℕ) (i j : Text) (m : ℕ) (x : Cluster R)
      → same_codes i j ≡ false
      → (extended R wait i m x).members j ≡ x.members j
  unfolding extended moved_on
  extended-others wait i j zero x n = rw n refl
  extended-others wait i j (suc m) x n = rw n refl

  sets-wins :
      (wait : ℕ) (j : Text) (x : Cluster R)
      → R.get (x.now + wait) x.store ≡ none
      → ((act R (sets wait j) x).members j).is_leader ≡ true
  unfolding act moved_on won
  sets-wins wait j x f =
      rw (same_codes_refl j, R.set_nx-free (x.now + wait) lease_ttl j x.store f) refl

  sets-others :
      (wait : ℕ) (i j : Text) (x : Cluster R)
      → same_codes j i ≡ false
      → (act R (sets wait j) x).members i ≡ x.members i
  unfolding act moved_on
  sets-others wait i j x n = rw n refl

  -- Where a node was told that the key has its id, and its lease ends before its PEXPIRE, a node that
  -- sets the key in between is made the leader, and the first one after it: both are leaders then.
  pub overlap_splits :
      (i j : Text) (x : Cluster R) (wait wait' n : ℕ)
      → (x.members i).will_extend ≡ suc n
      → R.get (x.now + wait) x.store ≡ none
      → same_codes i j ≡ false
      → same_codes j i ≡ false
      → let y = act R (extends wait' i) (act R (sets wait j) x) in
        ((y.members i).is_leader ≡ true) × ((y.members j).is_leader ≡ true)
  unfolding act
  overlap_splits i j x wait wait' n z f a b =
      let x' = act R (sets wait j) x in
      let told_own : (x'.members i).will_extend ≡ suc n = rw (sets-others wait i j x b) z in
      (
        extended-leads wait' i (x'.members i).will_extend n x' told_own,
        rw (extended-others wait' i j (x'.members i).will_extend x' a) (sets-wins wait j x f),
      )
