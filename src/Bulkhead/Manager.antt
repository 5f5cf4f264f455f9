-- ===== src/Bulkhead/Manager.antt =====
-- src/resilience/bulkhead/bulkhead-manager.ts: the bulkheads by name.
pub mod Slot
use queue_forge.Base.Maps.{find-put, find, put}
use queue_forge.Bulkhead.Pool.{timer_for, Pool, Acquired}
use queue_forge.Base.{
  List, Option, Option-cases, Text, [], arith, codes, false, inl, inr, length, length-append, lower,
  none, or_else, refl, same_codes, same_codes_refl, some, suc, ℕ, ◌∷◌, ◌≡◌,
}
use queue_forge.Bulkhead.Barrier.{or_number, Bulkhead, make}
use queue_forge.Bulkhead.Pool

-- The part of the configuration that is read.
pub record Settings : Type 0 where
  pub max_concurrent : Option ℕ
  pub max_queue_size : Option ℕ
  pub timeout : Option ℕ

pub record Manager : Type 0 where
  pub settings : Settings
  pub bulkheads : List (Text × Bulkhead)

setting : Option ℕ → Option ℕ → ℕ → ℕ
setting none o d = or_else o d
setting (some n) o d = n

create_bulkhead : Text → Option ℕ → Option ℕ → Manager → Manager × Bulkhead
unfolding setting
create_bulkhead name concurrent queue m =
    let b =
      make (some (setting concurrent m.settings.max_concurrent 20))
        (some (setting queue m.settings.max_queue_size 100))
        (some (or_else m.settings.timeout 30000)) in
    (record m { bulkheads = put name b m.bulkheads }, b)

-- The constructor, with the four standard categories.
new_manager : Settings → Manager
unfolding create_bulkhead
new_manager s =
    let m : Manager = record { settings = s; bulkheads = [] } in
    let m1 = (create_bulkhead (codes "WEBHOOK") (some 20) (some 100) m).0 in
    let m2 = (create_bulkhead (codes "DATABASE") (some 50) (some 200) m1).0 in
    let m3 = (create_bulkhead (codes "QUEUE") (some 30) (some 150) m2).0 in
    (create_bulkhead (codes "AUDIT") (some 10) (some 50) m3).0

pub or_create : Text → Option Bulkhead → Manager → Manager × Bulkhead
unfolding create_bulkhead
or_create name none m = create_bulkhead name none none m
or_create name (some b) m = (m, b)

pub get_bulkhead : Text → Manager → Manager × Bulkhead
unfolding or_create
get_bulkhead name m = or_create name (find name m.bulkheads) m

-- `acquire`, up to its await: it takes from the pool, past the bulkhead's bound on its queue.
unfoldable pub acquire : Text → ℕ → Option ℕ → Manager → Manager × Acquired
unfolding get_bulkhead
acquire name ticket timeout m =
    let (m', b) = get_bulkhead name m in
    let (p, acquired) = Pool.try_acquire ticket (or_number timeout b.timeout) b.pool in
    (record m' { bulkheads = put name (record b { pool = p }) m'.bulkheads }, acquired)

unfoldable pub release : Text → Manager → Manager × Option ℕ
unfolding get_bulkhead
release name m =
    let (m', b) = get_bulkhead name m in
    let (p, next) = Pool.release b.pool in
    (record m' { bulkheads = put name (record b { pool = p }) m'.bulkheads }, next)

-- The standard categories, and the slots that the constructor gives each of them.
pub data Category : Type 0 where
  webhook database queue audit : Category

abbrev pub name : Category → Text
name webhook = codes "WEBHOOK"
name database = codes "DATABASE"
name queue = codes "QUEUE"
name audit = codes "AUDIT"

abbrev pub slots : Category → ℕ
slots webhook = 20
slots database = 50
slots queue = 30
slots audit = 10

-- In a new manager a category's name in upper case finds the bulkhead with the category's slots. The
-- same name in lower case, under which the delivery executor asks for it, finds none: a new
-- bulkhead is made, whose slots are for every category those of the configuration, where it has
-- them (10 if they are 0), and 20 otherwise.
get_bulkhead-lower :
    (c : Category) (s : Settings)
    → let m = new_manager s in
      ((get_bulkhead (name c) m).1.max_concurrent ≡ slots c)
      × (find (lower (name c)) m.bulkheads ≡ none)
      × ((get_bulkhead (lower (name c)) m).1.max_concurrent
          ≡ or_number (some (or_else s.max_concurrent 20)) 10)
unfolding get_bulkhead new_manager find put make setting
get_bulkhead-lower webhook s = (refl, refl, refl)
get_bulkhead-lower _ s = (refl, refl, refl)

get_bulkhead-find :
    (id k : Text) (m : Manager)
    → same_codes id k ≡ false
    → find k (get_bulkhead id m).0.bulkheads ≡ find k m.bulkheads
unfolding get_bulkhead
get_bulkhead-find id k m h = elim (Option-cases (find id m.bulkheads)) [
  | inl e ↦ rw (e, or_create) (rw (find-put, h))
  | inr (b, e) ↦ rw (e, or_create)
]

try_acquire-full :
    (ticket timeout : ℕ) (p : Pool)
    → p.in_use ≡ p.max_size
    → length (Pool.try_acquire ticket timeout p).0.queue ≡ suc (length p.queue)
unfolding Pool.try_acquire
try_acquire-full ticket timeout p full = ground (
  arith,
  length-append p.queue (record { ticket = ticket; timer = timer_for ticket timeout } ∷ []),
)

find-acquire :
    (id : Text) (ticket : ℕ) (timeout : Option ℕ) (m : Manager) (b : Bulkhead)
    → find id m.bulkheads ≡ some b
    → find id (acquire id ticket timeout m).0.bulkheads
      ≡ some (record b { pool = (Pool.try_acquire ticket (or_number timeout b.timeout) b.pool).0 })
unfolding acquire get_bulkhead
find-acquire id ticket timeout m b e = rw (e, or_create) (rw (find-put, same_codes_refl) refl)

-- An acquisition through the manager leaves the bulkheads of other names alone. In one whose slots
-- are all in use it joins the queue however long that is: the bound that `execute` keeps on the
-- queue is not asked for.
acquire_unbounded :
    (id k : Text) (ticket : ℕ) (timeout : Option ℕ) (m : Manager)
    → (same_codes id k ≡ false
        → find k (acquire id ticket timeout m).0.bulkheads ≡ find k m.bulkheads)
      × ((b : Bulkhead)
          → find id m.bulkheads ≡ some b
          → b.pool.in_use ≡ b.pool.max_size
          → (b' : Bulkhead) × (find id (acquire id ticket timeout m).0.bulkheads ≡ some b')
            × (length b'.pool.queue ≡ suc (length b.pool.queue)))
unfolding acquire
acquire_unbounded id k ticket timeout m = (
  λ h. rw (find-put, h) (get_bulkhead-find id k m h),
  λ b e full. (
    record b { pool = (Pool.try_acquire ticket (or_number timeout b.timeout) b.pool).0 },
    find-acquire id ticket timeout m b e,
    try_acquire-full ticket (or_number timeout b.timeout) b.pool full,
  ),
)
