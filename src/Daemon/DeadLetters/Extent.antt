-- ===== src/Daemon/DeadLetters/Extent.antt =====
-- The statistics of the dead letter queue.
use queue_forge.Daemon.DeadLetters.{
  threshold_of, date_of, Dead, Limits, newest_of, oldest_of, monitor_dlq, largest, smallest,
}
use queue_forge.Base.{
  List, Option, [], arith, if◌then◌else◌, leb, ltb, map, max, min, not, refl, some, ℕ, ◌&&◌, ◌<◌,
  ◌∷◌, ◌≡◌, ◌≢◌, ◌≤◌,
}

AllFrom : ℕ → List ℕ → Type 0
AllFrom m [] = Unit {0}
AllFrom m (x ∷ xs) = (m ≤ x) × AllFrom m xs

AllUpTo : ℕ → List ℕ → Type 0
AllUpTo m [] = Unit {0}
AllUpTo m (x ∷ xs) = (x ≤ m) × AllUpTo m xs

smallest-le : (m : ℕ) (xs : List ℕ) → (smallest m xs ≤ m) × AllFrom (smallest m xs) xs
unfolding smallest AllFrom
smallest-le m [] = (omega arith, tt)
smallest-le m (x ∷ xs) =
    let (a, b) = smallest-le (min m x) xs in (omega (arith, a), (omega (arith, a), b))

le-largest : (m : ℕ) (xs : List ℕ) → (m ≤ largest m xs) × AllUpTo (largest m xs) xs
unfolding largest AllUpTo
le-largest m [] = (omega arith, tt)
le-largest m (x ∷ xs) =
    let (a, b) = le-largest (max m x) xs in (omega (arith, a), (omega (arith, a), b))

alert_at : (t n : ℕ) → t ≤ n → (if leb t n && not (ltb n t) then n ∷ [] else []) ≡ n ∷ []
alert_at t n h = ground arith

no_alert_at : (t n : ℕ) → n < t → (if leb t n && not (ltb n t) then n ∷ [] else []) ≡ []
no_alert_at t n h = ground arith

-- The dates of the deliveries lie between the oldest and the newest, which are there where any
-- delivery is; and one alert is sent, with the count, exactly where the count has reached the
-- threshold.
monitor_dlq_extent :
    (l : Limits) (now : ℕ) (total : Option ℕ) (ds : List Dead)
    → let (s, alerts) = monitor_dlq l now total ds in
      ((ds ≢ [])
        → (o : ℕ) × (n : ℕ) × (s.oldest ≡ some o)
          × (s.newest ≡ some n)
          × AllFrom o (map (date_of now) ds)
          × AllUpTo n (map (date_of now) ds))
      × (threshold_of l ≤ s.count → alerts ≡ s.count ∷ [])
      × (s.count < threshold_of l → alerts ≡ [])
unfolding monitor_dlq oldest_of newest_of AllFrom AllUpTo
monitor_dlq_extent l now total [] =
    (λ h. absurd (h refl), alert_at (threshold_of l) _, no_alert_at (threshold_of l) _)
monitor_dlq_extent l now total (d ∷ ds) =
    let (a, b) = smallest-le (date_of now d) (map (date_of now) ds) in
    let (c, e) = le-largest (date_of now d) (map (date_of now) ds) in
    (
      λ h. (_, _, refl, refl, (a, b), (c, e)),
      alert_at (threshold_of l) _,
      no_alert_at (threshold_of l) _,
    )
