-- ===== src/Resilience/Shedding/Levels.antt =====
-- How much `checkAndShed` sheds at each level of pressure.
use queue_forge.Resilience.Shedding.Order.{select_jobs_to_shed_splits}
use queue_forge.Base.Ratios.{Ratio}
use queue_forge.Resilience.Shedding.{
  critical, high, medium, is_pressing, low, is_under_pressure, percentage_at, pressure_level,
  check_and_shed, Pressure, keep_all, SheddingStrategy, select_jobs_to_shed,
}
use queue_forge.Base.{
  List, ap, arith, false, length, min, not, refl, true, ℕ, ◌&&◌, ◌*◌, ◌+◌, ◌/◌, ◌<◌, ◌∙◌, ◌≡◌, ◌≢◌,
  ◌≤◌,
}

percentage_at-positive : (l : Pressure) → 0 < percentage_at l
percentage_at-positive low = omega arith
percentage_at-positive _ = omega arith

level-low :
    (depth threshold : ℕ)
    → depth * 100 < 50 * threshold
    → is_pressing (pressure_level depth threshold) ≡ false
unfolding pressure_level
level-low depth threshold h = ground arith

level-high :
    (depth threshold : ℕ)
    → 50 * threshold ≤ depth * 100
    → depth * 100 < 75 * threshold
    → pressure_level depth threshold ≡ high
unfolding pressure_level
level-high depth threshold h l = ground arith

level-critical :
    (depth threshold : ℕ) → 75 * threshold ≤ depth * 100 → pressure_level depth threshold ≡ critical
unfolding pressure_level
level-critical depth threshold h = ground arith

-- A level that presses for nothing asks for a twentieth.
percentage_at-calm : (l : Pressure) → is_pressing l ≡ false → percentage_at l ≡ 5
percentage_at-calm low h = refl
percentage_at-calm medium h = refl
percentage_at-calm high h = cc
percentage_at-calm critical h = cc

module _ {ℓ} {A : Type ℓ} where
  shed_length :
      (s : SheddingStrategy) (key : A → ℕ) (draw : ℕ → Ratio) (jobs : List A) (percentage : ℕ)
      → 0 < percentage
      → s ≢ keep_all
      → length (select_jobs_to_shed s key draw jobs percentage)
        ≡ min (length jobs) ((length jobs * percentage + 99) / 100)
  shed_length s key draw jobs percentage h k =
      (select_jobs_to_shed_splits s key draw jobs percentage h k).0

  -- What is shed at a level of pressure.
  abbrev pub shed_at : List A → ℕ → ℕ × ℕ
  shed_at jobs percentage = (min (length jobs) ((length jobs * percentage + 99) / 100), percentage)

  check_and_shed-pressing :
      (threshold alarm depth depth' : ℕ) (s : SheddingStrategy) (key : A → ℕ) (draw : ℕ → Ratio)
      (jobs : List A)
      → s ≢ keep_all
      → (not (is_under_pressure alarm depth threshold)
          && not (is_pressing (pressure_level depth' threshold)))
        ≡ false
      → check_and_shed threshold alarm depth depth' s key draw jobs
        ≡ shed_at jobs (percentage_at (pressure_level depth' threshold))
  unfolding check_and_shed
  check_and_shed-pressing threshold alarm depth depth' s key draw jobs k h =
      let level = pressure_level depth' threshold in
      rw h (
        ground (
          arith,
          shed_length s key draw jobs (percentage_at level) (percentage_at-positive level) k,
        ))

  check_and_shed-calm :
      (threshold alarm depth depth' : ℕ) (s : SheddingStrategy) (key : A → ℕ) (draw : ℕ → Ratio)
      (jobs : List A)
      → (not (is_under_pressure alarm depth threshold)
          && not (is_pressing (pressure_level depth' threshold)))
        ≡ true
      → check_and_shed threshold alarm depth depth' s key draw jobs ≡ (0, 0)
  unfolding check_and_shed
  check_and_shed-calm threshold alarm depth depth' s key draw jobs h = rw h refl

  -- Under any strategy but NONE: below half of the threshold and below the alarm's percentage nothing
  -- is shed. Otherwise jobs are shed, rounded up: a quarter of them from three quarters of the
  -- threshold on, a tenth from half of it on, and a twentieth where only the alarm is reached.
  pub check_and_shed_levels :
      (threshold alarm depth depth' : ℕ) (s : SheddingStrategy) (key : A → ℕ) (draw : ℕ → Ratio)
      (jobs : List A)
      → s ≢ keep_all
      → let r = check_and_shed threshold alarm depth depth' s key draw jobs in
        (depth' * 100 < 50 * threshold → depth * 100 < alarm * threshold → r ≡ (0, 0))
        × (75 * threshold ≤ depth' * 100 → r ≡ shed_at jobs 25)
        × (50 * threshold ≤ depth' * 100 → depth' * 100 < 75 * threshold → r ≡ shed_at jobs 10)
        × (depth' * 100 < 50 * threshold → alarm * threshold ≤ depth * 100 → r ≡ shed_at jobs 5)
  unfolding is_under_pressure
  check_and_shed_levels threshold alarm depth depth' s key draw jobs k =
      let pressing = check_and_shed-pressing threshold alarm depth depth' s key draw jobs k in
      (
        λ h g.
            check_and_shed-calm threshold alarm depth depth' s key draw jobs
              (ground (arith, level-low depth' threshold h)),
        λ h.
            let e = level-critical depth' threshold h in
            pressing (ground (arith, e)) ∙ ap (λ l. shed_at jobs (percentage_at l)) e,
        λ h g.
            let e = level-high depth' threshold h g in
            pressing (ground (arith, e)) ∙ ap (λ l. shed_at jobs (percentage_at l)) e,
        λ h g.
            pressing (ground arith)
            ∙ ap (shed_at jobs) (
                percentage_at-calm (pressure_level depth' threshold)
                  (level-low depth' threshold h)),
      )
