-- ===== src/Resilience/Shedding.antt =====
-- src/resilience/backpressure: shedding-strategy.ts, with the pressure levels of queue-monitor.ts and
-- `checkAndShed` of backpressure-monitor.ts. Percentages are compared exactly; the rounding of floats
-- is not modelled. A job is any value, with its priority by a function; the stable `Array.sort` is
-- an insertion sort. Logging and alarms are left out.
pub mod Order
pub mod Levels
use queue_forge.Base.Ratios.{Ratio}
use queue_forge.Base.{
  Bool, List, Option, [], false, if◌then◌else◌, leb, length, ltb, min, none, not, some, suc, take,
  true, zero, ℕ, ◌&&◌, ◌*◌, ◌+◌, ◌-◌, ◌/◌, ◌||◌, ◌∷◌,
}

pub data SheddingStrategy : Type 0 where
  fifo random priority keep_all : SheddingStrategy

-- `Math.min(jobs.length, Math.ceil((jobs.length * percentage) / 100))`.
pub count_to_shed : ℕ → ℕ → ℕ
count_to_shed n percentage = min n ((n * percentage + 99) / 100)

abbrev sheds_none : SheddingStrategy → Bool
sheds_none keep_all = true
sheds_none _ = false

module _ {ℓ} {A : Type ℓ} where
  pub nth : List A → ℕ → Option A
  nth [] i = none
  nth (x ∷ xs) zero = some x
  nth (x ∷ xs) (suc i) = nth xs i

  pub set : ℕ → A → List A → List A
  set i y [] = []
  set zero y (x ∷ xs) = y ∷ xs
  set (suc i) y (x ∷ xs) = x ∷ set i y xs

  exchange : ℕ → ℕ → Option A → Option A → List A → List A
  unfolding set
  exchange i j (some x) (some y) xs = set j x (set i y xs)
  exchange i j _ _ xs = xs

  -- `[copy[i], copy[j]] = [copy[j], copy[i]]`.
  swap : ℕ → ℕ → List A → List A
  unfolding exchange nth
  swap i j xs = exchange i j (nth xs i) (nth xs j) xs

  -- The loop from an index down to 1; the argument gives what is drawn at an index.
  shuffle_from : (ℕ → Ratio) → ℕ → List A → List A
  unfolding swap
  shuffle_from draw zero xs = xs
  shuffle_from draw (suc i) xs =
      shuffle_from draw i (swap (suc i) (suc (suc i) * (draw (suc i)).num / (draw (suc i)).den) xs)

  insert : (A → ℕ) → A → List A → List A
  insert key x [] = x ∷ []
  insert key x (y ∷ ys) =
      let rest = insert key x ys in if leb (key x) (key y) then x ∷ y ∷ ys else y ∷ rest

  sort : (A → ℕ) → List A → List A
  unfolding insert
  sort key [] = []
  sort key (x ∷ xs) = insert key x (sort key xs)

  -- The array from whose front jobs are shed.
  pub arranged : SheddingStrategy → (A → ℕ) → (ℕ → Ratio) → List A → List A
  unfolding shuffle_from sort
  arranged random key draw jobs = shuffle_from draw (length jobs - 1) jobs
  arranged priority key draw jobs = sort key jobs
  arranged _ key draw jobs = jobs

  pub select_jobs_to_shed : SheddingStrategy → (A → ℕ) → (ℕ → Ratio) → List A → ℕ → List A
  unfolding arranged count_to_shed
  select_jobs_to_shed s key draw jobs percentage =
      if leb (length jobs) 0 || (leb percentage 0 || sheds_none s)
      then []
      else take (count_to_shed (length jobs) percentage) (arranged s key draw jobs)

pub data Pressure : Type 0 where
  low medium high critical : Pressure

-- `getPressureLevel`, at a depth and a threshold that is not 0.
pub pressure_level : ℕ → ℕ → Pressure
pressure_level depth threshold =
    if ltb (depth * 100) (25 * threshold)
    then low
    else if ltb (depth * 100) (50 * threshold)
    then medium
    else if ltb (depth * 100) (75 * threshold)
    then high
    else critical

pub is_under_pressure : ℕ → ℕ → ℕ → Bool
is_under_pressure alarm depth threshold = leb (alarm * threshold) (depth * 100)

abbrev is_pressing : Pressure → Bool
is_pressing critical = true
is_pressing high = true
is_pressing _ = false

abbrev pub percentage_at : Pressure → ℕ
percentage_at critical = 25
percentage_at high = 10
percentage_at _ = 5

-- The count and the percentage of `checkAndShed`; the two depths are those that `isUnderPressure`
-- and `getPressureLevel` read.
pub check_and_shed {ℓ} :
    {A : Type ℓ} → ℕ → ℕ → ℕ → ℕ → SheddingStrategy → (A → ℕ) → (ℕ → Ratio) → List A → ℕ × ℕ
unfolding select_jobs_to_shed pressure_level is_under_pressure
check_and_shed threshold alarm depth depth' s key draw jobs =
    let level = pressure_level depth' threshold in
    if not (is_under_pressure alarm depth threshold) && not (is_pressing level)
    then (0, 0)
    else if leb (length jobs) 0
    then (0, percentage_at level)
    else (length (select_jobs_to_shed s key draw jobs (percentage_at level)), percentage_at level)
