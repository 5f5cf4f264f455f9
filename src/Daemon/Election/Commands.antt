-- ===== src/Daemon/Election/Commands.antt =====
-- src/daemon/coordinator/leader-election.ts with every command of Redis a step of its own: a call of
-- `participate` or `resign` is cut at its awaits, and the commands of the nodes come in any order.
-- Every node has a client of its own.
pub mod Reign
use queue_forge.Daemon.Election.{lease_ttl, same_owner, Redis}
use queue_forge.Base.{
  Bool, List, Text, [], false, if◌then◌else◌, none, same_codes, some, suc, true, zero, ℕ, ◌&&◌, ◌+◌,
  ◌∷◌, ◌≡◌,
}

-- A node: what `isLeader` answers, and how many of its calls were told that the key has its id, and
-- will extend the lease or delete the key.
pub record Member : Type 0 where
  pub is_leader : Bool
  pub will_extend : ℕ
  pub will_delete : ℕ

-- A command, after some time: the SET with NX, the GET and the PEXPIRE of `participate`, and the GET
-- and the DEL of `resign`; or one that throws and does nothing, after which the node is no leader.
pub data Command : Type 0 where
  sets asks extends asks_to_resign deletes fails : ℕ → Text → Command

-- What the answers come to: a SET that is taken, a GET of `participate`, and a GET of `resign`.
won : Bool → Member → Member
won true n = record n { is_leader = true }
won false n = n

told : Bool → Member → Member
told true n = record n { will_extend = suc n.will_extend }
told false n = record n { is_leader = false }

told_last : Bool → Member → Member
told_last true n = record n { will_delete = suc n.will_delete }
told_last false n = record n { is_leader = false }

pub wait_for : Command → ℕ
wait_for (sets wait i) = wait
wait_for (asks wait i) = wait
wait_for (extends wait i) = wait
wait_for (asks_to_resign wait i) = wait
wait_for (deletes wait i) = wait
wait_for (fails wait i) = wait

unfoldable pub time_of : List Command → ℕ
unfolding wait_for
time_of [] = 0
time_of (a ∷ as') = wait_for a + time_of as'

-- A node does not begin to resign.
unfoldable pub Stays : Text → Command → Type 0
Stays i (asks_to_resign wait j) = same_codes i j ≡ false
Stays i _ = Unit {0}

unfoldable pub AllStay : Text → List Command → Type 0
unfolding Stays
AllStay i [] = Unit {0}
AllStay i (a ∷ as') = Stays i a × AllStay i as'

module _ (R : Redis) where
  pub record Cluster : Type 0 where
    pub now : ℕ
    pub store : R.Store
    pub members : Text → Member

  -- One command's end: the time, the store, and its node.
  moved_on : ℕ → Text → Member → R.Store → Cluster → Cluster
  moved_on wait i n s x = record {
    now = x.now + wait;
    store = s;
    members = λ k. if same_codes i k then n else x.members k;
  }

  extended : ℕ → Text → ℕ → Cluster → Cluster
  unfolding moved_on
  extended wait i zero x = moved_on wait i (x.members i) x.store x
  extended wait i (suc n) x =
      moved_on wait i (record (x.members i) { is_leader = true; will_extend = n })
        (R.pexpire (x.now + wait) lease_ttl x.store) x

  deleted : ℕ → Text → ℕ → Cluster → Cluster
  unfolding moved_on
  deleted wait i zero x = moved_on wait i (x.members i) x.store x
  deleted wait i (suc n) x =
      moved_on wait i (record (x.members i) { is_leader = false; will_delete = n })
        (R.del (x.now + wait) x.store) x

  pub act : Command → Cluster → Cluster
  unfolding moved_on extended deleted won told told_last same_owner
  act (sets wait i) x =
      let (s, taken) = R.set_nx (x.now + wait) i lease_ttl x.store in
      moved_on wait i (won taken (x.members i)) s x
  act (asks wait i) x =
      moved_on wait i (told (same_owner i (R.get (x.now + wait) x.store)) (x.members i)) x.store x
  act (extends wait i) x = extended wait i (x.members i).will_extend x
  act (asks_to_resign wait i) x =
      moved_on wait i
        (told_last (same_owner i (R.get (x.now + wait) x.store) && (x.members i).is_leader)
          (x.members i))
        x.store x
  act (deletes wait i) x = deleted wait i (x.members i).will_delete x
  act (fails wait i) x = moved_on wait i (record (x.members i) { is_leader = false }) x.store x

  pub act_all : List Command → Cluster → Cluster
  unfolding act
  act_all [] x = x
  act_all (a ∷ as') x = act_all as' (act a x)

  -- No call but those of a node will extend the lease, and none at all will delete the key.
  unfoldable pub Settled : Text → Cluster → Type 0
  Settled i x =
      (j : Text)
      → ((x.members j).will_delete ≡ 0) × (same_codes i j ≡ false → (x.members j).will_extend ≡ 0)

  -- A command that makes a node the leader: its SET where the key is free, or its PEXPIRE while the
  -- key has its id.
  unfoldable pub Gains : Text → Command → Cluster → Type 0
  Gains i (sets wait j) x = (i ≡ j) × (R.get (x.now + wait) x.store ≡ none)
  Gains i (extends wait j) x =
      (i ≡ j)
      × (R.get (x.now + wait) x.store ≡ some i)
      × ((n : ℕ) × ((x.members j).will_extend ≡ suc n))
  Gains i _ x = ⊥
