-- ===== src/Examples/Daemons.antt =====
-- The daemons, over a key that is a value with the time it expires.
use queue_forge.Daemon.Delayed.Laws.{process_scheduled_retries_all}
use queue_forge.Daemon.Election.Split.{participate_wrapped_splits}
use queue_forge.Daemon.Election.Commands.Reign.{act_all_exclusive, overlap_splits}
use queue_forge.Daemon.Election.Commands.{
  Cluster, sets, asks, extends, act, act_all, Gains, Settled, AllStay, Stays, time_of,
}
use queue_forge.Base.{
  Bool, Bool-cases, Option, Text, [], arith, codes, false, if◌then◌else◌, inl, inr, ltb, lt→ltb,
  none, refl, some, true, ℕ, ◌+◌, ◌<◌, ◌∷◌, ◌≡◌, ◌≤◌,
}
use queue_forge.Daemon.Delayed.{job_of, process_scheduled_retries}
use queue_forge.Repository.Deliveries.{find_scheduled_retries, Row}
use queue_forge.Daemon.Election.{System, wrapped, participates, step, Redis}
use queue_forge.Delivery.Status.{scheduled_retry}
use queue_forge.Delivery.Status

abbrev Key : Type 0
Key = Option (Text × Option ℕ)

live : ℕ → Option ℕ → Bool
live now none = true
live now (some until) = ltb now until

key_get : ℕ → Key → Option Text
unfolding live
key_get now none = none
key_get now (some (v, until)) = if live now until then some v else none

key_set : ℕ → Text → Key → Key
key_set now v s = some (v, none)

set_where : ℕ → Text → ℕ → Key → Option Text → Key × Bool
set_where now v ttl s none = (some (v, some (now + ttl)), true)
set_where now v ttl s (some w) = (s, false)

key_set_nx : ℕ → Text → ℕ → Key → Key × Bool
key_set_nx now v ttl s = set_where now v ttl s (key_get now s)

key_pexpire : ℕ → ℕ → Key → Key
key_pexpire now ttl none = none
key_pexpire now ttl (some (v, until)) =
    if live now until then some (v, some (now + ttl)) else some (v, until)

key_del : ℕ → Key → Key
key_del now s = none

key_get-set : (now t : ℕ) (v : Text) (s : Key) → now ≤ t → key_get t (key_set now v s) ≡ some v
unfolding key_get key_set live
key_get-set now t v s l = refl

key_set_nx-taken :
    (now ttl : ℕ) (v w : Text) (s : Key)
    → key_get now s ≡ some w
    → key_set_nx now v ttl s ≡ (s, false)
unfolding key_set_nx set_where
key_set_nx-taken now ttl v w s h = rw h refl

key_set_nx-free :
    (now ttl : ℕ) (v : Text) (s : Key) → key_get now s ≡ none → (key_set_nx now v ttl s).1 ≡ true
unfolding key_set_nx set_where
key_set_nx-free now ttl v s h = rw h refl

still_live : (t until : ℕ) (v : Text) → t < until → key_get t (some (v, some until)) ≡ some v
unfolding key_get live
still_live t until v l = rw (lt→ltb t until l) refl

key_get-set_nx :
    (now ttl t : ℕ) (v : Text) (s : Key)
    → key_get now s ≡ none
    → now ≤ t
    → t < now + ttl
    → key_get t (key_set_nx now v ttl s).0 ≡ some v
unfolding key_set_nx set_where
key_get-set_nx now ttl t v s h a b = rw h (still_live t (now + ttl) v b)

key_get-pexpire :
    (now ttl t : ℕ) (v : Text) (s : Key)
    → key_get now s ≡ some v
    → now ≤ t
    → t < now + ttl
    → key_get t (key_pexpire now ttl s) ≡ some v
unfolding key_get key_pexpire live
key_get-pexpire now ttl t v none h a b = cc
key_get-pexpire now ttl t v (some (w, none)) h a b = rw (lt→ltb t (now + ttl) b) h
key_get-pexpire now ttl t v (some (w, some until)) h a b = elim (Bool-cases (ltb now until)) [
  | inl e ↦ ground (arith, e, h, lt→ltb t (now + ttl) b)
  | inr e ↦ ground (arith, e, h)
]

key_get-del : (now t : ℕ) (s : Key) → now ≤ t → key_get t (key_del now s) ≡ none
unfolding key_get key_del
key_get-del now t s l = refl

abbrev key : Redis
key = record {
  Store = Key;
  get = key_get;
  set = key_set;
  set_nx = key_set_nx;
  pexpire = key_pexpire;
  del = key_del;
  get-set = key_get-set;
  set_nx-taken = key_set_nx-taken;
  set_nx-free = key_set_nx-free;
  get-set_nx = key_get-set_nx;
  get-pexpire = key_get-pexpire;
  get-del = key_get-del;
}

abbrev fresh_system : System key
fresh_system = record {
  now = 100;
  store = none;
  nodes = λ id. record { is_leader = false; refreshing = false };
}

abbrev cluster : Cluster key
cluster = record {
  now = 0;
  store = none;
  members = λ i. record { is_leader = false; will_extend = 0; will_delete = 0 };
}

cluster-Settled : Settled key (codes "n1") cluster
unfolding Settled
cluster-Settled j = (refl, λ e. refl)

-- The second node's SET fails, and its GET is answered with the first one's id.
act_all_exclusive_example :
    let y =
      act_all key
        (sets 9000 (codes "n2") ∷ asks 20 (codes "n2") ∷ [])
        (act key (sets 0 (codes "n1")) cluster) in
    ((y.members (codes "n2")).is_leader ≡ false) × (key_get y.now y.store ≡ some (codes "n1"))
unfolding Gains AllStay Stays time_of key_get
act_all_exclusive_example =
    act_all_exclusive key (codes "n1") (codes "n2") (sets 0 (codes "n1")) cluster
      (sets 9000 (codes "n2") ∷ asks 20 (codes "n2") ∷ []) (refl, refl) cluster-Settled refl refl
      (tt, (tt, tt)) (omega arith)

-- The first node was told that the key has its id, which is over at 10.
abbrev told_cluster : Cluster key
told_cluster = record {
  now = 0;
  store = some (codes "n1", some 10);
  members = λ i. record { is_leader = false; will_extend = 1; will_delete = 0 };
}

overlap_splits_example :
    let y = act key (extends 5 (codes "n1")) (act key (sets 20 (codes "n2")) told_cluster) in
    ((y.members (codes "n1")).is_leader ≡ true) × ((y.members (codes "n2")).is_leader ≡ true)
unfolding key_get live
overlap_splits_example =
    overlap_splits key (codes "n1") (codes "n2") told_cluster 20 5 0 refl refl refl refl

participate_wrapped_splits_example :
    let x' = step key (participates wrapped 0 (codes "n1")) fresh_system in
    let y = step key (participates wrapped 50 (codes "n2")) x' in
    ((y.nodes (codes "n1")).is_leader ≡ true)
    × ((y.nodes (codes "n2")).is_leader ≡ true)
    × ((t : ℕ) → y.now ≤ t → key_get t y.store ≡ some (codes "n2"))
participate_wrapped_splits_example =
    participate_wrapped_splits key (codes "n1") (codes "n2") fresh_system 50 refl

abbrev waiting : Row
waiting = record {
  id = codes "d1";
  task_result_id = codes "t1";
  destination_id = codes "x1";
  status = scheduled_retry;
  retry_count = 2;
  next_retry_at = some 90;
  completed_at = none;
  last_error = none;
  error_category = none;
  updated_at = 50;
  deleted_at = none;
}

process_scheduled_retries_all_example :
    (process_scheduled_retries 100 (λ j. true) (waiting ∷ [], [])).0.1 ≡ job_of waiting ∷ []
unfolding find_scheduled_retries Status.equals Status.get_value
process_scheduled_retries_all_example =
    (process_scheduled_retries_all 100 (waiting ∷ []) [] (codes "d1")).0
