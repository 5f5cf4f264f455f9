-- ===== src/Daemon/Election/Split.antt =====
-- When more than one node can take itself for the leader, and how the lead is handed over.
use queue_forge.Daemon.Election.{
  Client, lease_ttl, extend, wrapped, operations_set, resigns, participates, refresh, System,
  acquire, direct, same_owner, replace, set_lease, Node, resign, step, participate, Redis,
}
use queue_forge.Base.{
  Bool, Text, arith, false, none, refl, same_codes, same_codes_refl, some, true, ℕ, ◌+◌, ◌≡◌, ◌≤◌,
}

module _ (R : Redis) where
  participate-wrapped :
      (now : ℕ) (i : Text) (s : R.Store) → participate R wrapped now i s ≡ (R.set now i s, true)
  unfolding participate set_lease acquire refresh same_owner operations_set extend
  participate-wrapped now i s = rw (R.get-set now now i s (omega arith), same_codes_refl i) refl

  -- With the repository's own wrapper every node that takes part is made the leader at once, whoever
  -- holds the key: the node before it keeps its flag, and the key has the later node's id from then
  -- on, without a time to live.
  pub participate_wrapped_splits :
      (i j : Text) (x : System R) (wait : ℕ)
      → same_codes j i ≡ false
      → let x' = step R (participates wrapped 0 i) x in
        let y = step R (participates wrapped wait j) x' in
        ((y.nodes i).is_leader ≡ true)
        × ((y.nodes j).is_leader ≡ true)
        × ((t : ℕ) → y.now ≤ t → R.get t y.store ≡ some j)
  unfolding step replace
  participate_wrapped_splits i j x wait n = (
    rw (n, same_codes_refl i, participate-wrapped (x.now + 0) i x.store) refl,
    rw
        (
          same_codes_refl j,
          participate-wrapped (x.now + 0 + wait) j (participate R wrapped (x.now + 0) i x.store).0,
        )
        refl,
    λ t l.
        rw
          (participate-wrapped (x.now + 0 + wait) j (participate R wrapped (x.now + 0) i x.store).0)
          (R.get-set (x.now + 0 + wait) t j _ l),
  )

  acquire-won :
      (c : Client) (now : ℕ) (i : Text) (p : R.Store × Bool)
      → p.1 ≡ true
      → acquire R c now i p ≡ (p.0, true)
  unfolding acquire
  acquire-won c now i (s, true) h = refl
  acquire-won c now i (s, false) h = cc

  participate-free :
      (now : ℕ) (i : Text) (s : R.Store)
      → R.get now s ≡ none
      → participate R direct now i s ≡ ((R.set_nx now i lease_ttl s).0, true)
  unfolding participate set_lease
  participate-free now i s g =
      acquire-won direct now i (R.set_nx now i lease_ttl s) (R.set_nx-free now lease_ttl i s g)

  resign-own :
      (now : ℕ) (i : Text) (n : Node) (s : R.Store)
      → n.is_leader ≡ true
      → R.get now s ≡ some i
      → resign R now i n s ≡ R.del now s
  unfolding resign same_owner
  resign-own now i n s f g = rw (f, g, same_codes_refl i) refl

  freed :
      (now wait : ℕ) (i j : Text) (n : Node) (s : R.Store)
      → n.is_leader ≡ true
      → R.get now s ≡ some i
      → (participate R direct (now + wait) j (resign R now i n s)).1 ≡ true
  freed now wait i j n s f g = rw (resign-own now i n s f g) (
      rw
        (participate-free (now + wait) j (R.del now s) (R.get-del now (now + wait) s (omega arith)))
        refl)

  -- A leader that resigns while it holds the key hands the lead over: the next node that takes part,
  -- by a client of its own, is made the leader at once, and the one that resigned is none then.
  pub resign_hands_over :
      (i j : Text) (x : System R) (wait wait' : ℕ)
      → (x.nodes i).is_leader ≡ true
      → R.get (x.now + wait) x.store ≡ some i
      → same_codes j i ≡ false
      → let x' = step R (resigns wait i) x in
        let y = step R (participates direct wait' j) x' in
        ((y.nodes j).is_leader ≡ true) × ((y.nodes i).is_leader ≡ false)
  unfolding step replace
  resign_hands_over i j x wait wait' f g n = (
    rw (same_codes_refl j, freed (x.now + wait) wait' i j (x.nodes i) x.store f g) refl,
    rw (n, same_codes_refl i) refl,
  )

  -- A node that Redis is silent to, or whose timer is late, keeps its flag when its lease ends, and
  -- the next node to take part is made the leader beside it.
  pub stale_leader :
      (i j : Text) (x : System R) (wait : ℕ)
      → (x.nodes i).is_leader ≡ true
      → R.get (x.now + wait) x.store ≡ none
      → same_codes j i ≡ false
      → let y = step R (participates direct wait j) x in
        ((y.nodes i).is_leader ≡ true) × ((y.nodes j).is_leader ≡ true)
  unfolding step replace
  stale_leader i j x wait f g n =
      (rw (n, f) refl, rw (same_codes_refl j, participate-free (x.now + wait) j x.store g) refl)
