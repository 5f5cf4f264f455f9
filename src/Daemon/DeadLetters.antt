-- ===== src/Daemon/DeadLetters.antt =====
-- src/daemon/recovery/dlq-monitor.ts: the size and age of the dead letter queue, its alert, and what
-- its deliveries failed of most often. The repository is one with `findDLQDeliveries` and
-- `findByStatus` whose calls succeed; the keys of a tally are no array indices and no names that
-- every object has. `Array.sort` is stable, an insertion sort. Logs are left out.
pub mod Top
pub mod Extent
use queue_forge.Base.Maps.{find, put}
use queue_forge.Base.{
  List, Option, Text, [], codes, if◌then◌else◌, leb, length, ltb, map, max, min, none, not, or_else,
  or_nonzero, or_text, some, suc, take, ℕ, ◌&&◌, ◌==◌, ◌∷◌,
}

-- What is read of a delivery; no text is empty, and a date counts as nothing at 0.
pub record Dead : Type 0 where
  pub failure_reason : Option Text
  pub last_error : Option Text
  pub destination_id : Option Text
  pub agent_id : Option Text
  pub updated_at : ℕ
  pub created_at : ℕ

pub record Stats : Type 0 where
  pub count : ℕ
  pub oldest : Option ℕ
  pub newest : Option ℕ

-- The limits of the configuration.
pub record Limits : Type 0 where
  pub dlq_threshold : Option ℕ
  pub max_dlq_threshold : Option ℕ

-- `||` twice, and 50.
pub threshold_of : Limits → ℕ
threshold_of l = or_else (or_nonzero l.dlq_threshold (or_nonzero l.max_dlq_threshold (some 50))) 50

-- `updatedAt || createdAt || Date.now()`.
pub date_of : ℕ → Dead → ℕ
date_of now d =
    or_else (or_nonzero (some d.updated_at) (or_nonzero (some d.created_at) (some now))) now

pub smallest : ℕ → List ℕ → ℕ
smallest m [] = m
smallest m (x ∷ xs) = smallest (min m x) xs

pub largest : ℕ → List ℕ → ℕ
largest m [] = m
largest m (x ∷ xs) = largest (max m x) xs

pub oldest_of : List ℕ → Option ℕ
unfolding smallest
oldest_of [] = none
oldest_of (x ∷ xs) = some (smallest x xs)

pub newest_of : List ℕ → Option ℕ
unfolding largest
newest_of [] = none
newest_of (x ∷ xs) = some (largest x xs)

-- `totalCount || dlqList.length`, where the total is that of the answer, or the length.
count_of : Option ℕ → List Dead → ℕ
count_of total ds = let n = or_else total (length ds) in if n == 0 then length ds else n

-- The statistics, and the sizes that alerts are sent with; `publishAlerts` asks again.
pub monitor_dlq : Limits → ℕ → Option ℕ → List Dead → Stats × List ℕ
unfolding threshold_of date_of count_of oldest_of newest_of
monitor_dlq l now total ds =
    let n = count_of total ds in
    let dates = map (date_of now) ds in
    (
      record { count = n; oldest = oldest_of dates; newest = newest_of dates },
      if leb (threshold_of l) n && not (ltb n (threshold_of l)) then n ∷ [] else [],
    )

-- `map[key] = (map[key] || 0) + 1`.
pub add_to : Text → List (Text × ℕ) → List (Text × ℕ)
add_to k m = put k (suc (or_else (find k m) 0)) m

pub tally : (Dead → Text) → List Dead → List (Text × ℕ) → List (Text × ℕ)
unfolding add_to
tally key [] m = m
tally key (d ∷ ds) m = tally key ds (add_to (key d) m)

unfoldable pub insert : Text × ℕ → List (Text × ℕ) → List (Text × ℕ)
insert e [] = e ∷ []
insert e (f ∷ fs) = let rest = insert e fs in if leb f.1 e.1 then e ∷ f ∷ fs else f ∷ rest

-- `(a, b) => b.count - a.count`: the first element is put before its equals.
unfoldable pub sort : List (Text × ℕ) → List (Text × ℕ)
unfolding insert
sort [] = []
sort (e ∷ es) = insert e (sort es)

pub sort_top : (Dead → Text) → List Dead → List (Text × ℕ)
unfolding tally sort
sort_top key ds = take 5 (sort (tally key ds []))

unfoldable pub error_of : Dead → Text
error_of d = or_text d.failure_reason (or_text d.last_error (codes "Unknown Error"))

destination_of : Dead → Text
destination_of d = or_text d.destination_id (codes "unknown")

agent_of : Dead → Text
agent_of d = or_text d.agent_id (codes "unknown")

pub record Analysis : Type 0 where
  pub top_errors : List (Text × ℕ)
  pub top_destinations : List (Text × ℕ)
  pub top_agents : List (Text × ℕ)

unfoldable analyze_failures : List Dead → Analysis
unfolding sort_top error_of destination_of agent_of
analyze_failures ds = record {
  top_errors = sort_top error_of ds;
  top_destinations = sort_top destination_of ds;
  top_agents = sort_top agent_of ds;
}
