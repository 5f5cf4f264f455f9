-- ===== src/Resilience/Alarms.antt =====
-- src/resilience/backpressure/alarm-system.ts: how full a queue is, and the last alarms. The
-- percentage is compared exactly; the rounding of floats is not modelled. Logging is left out.
use queue_forge.Base.{
  Bool, Bool-cases, List, [], ap, arith, if◌then◌else◌, inl, inr, leb, length, ltb, refl, suc, sym,
  take, zero, ℕ, ◌*◌, ◌<◌, ◌∙◌, ◌∷◌, ◌≡◌, ◌≤◌,
}

pub data AlarmLevel : Type 0 where
  green yellow red critical : AlarmLevel

pub record AlarmEvent : Type 0 where
  pub level : AlarmLevel
  pub depth : ℕ
  pub timestamp : ℕ

-- Whether `depth / capacity * 100 >= percent`.
reaches : ℕ → ℕ → ℕ → Bool
reaches percent depth capacity = leb (percent * capacity) (depth * 100)

check_threshold : ℕ → ℕ → AlarmLevel
unfolding reaches
check_threshold depth capacity =
    if leb capacity 0
    then green
    else if reaches 99 depth capacity
    then critical
    else if reaches 90 depth capacity
    then red
    else if reaches 70 depth capacity
    then yellow
    else green

-- `history.pop()`.
pop : List AlarmEvent → List AlarmEvent
pop [] = []
pop (e ∷ []) = []
pop (e ∷ f ∷ es) = e ∷ pop (f ∷ es)

record_alarm : ℕ → AlarmLevel → ℕ → List AlarmEvent → List AlarmEvent
unfolding pop
record_alarm now level depth history =
    let history' = record { level = level; depth = depth; timestamp = now } ∷ history in
    if ltb 100 (length history') then pop history' else history'

get_alarm_history : ℕ → List AlarmEvent → List AlarmEvent
get_alarm_history limit history = take limit history

abbrev severity : AlarmLevel → ℕ
severity green = 0
severity yellow = 1
severity red = 2
severity critical = 3

-- A deeper queue never has a lesser alarm, and neither has a queue of a smaller capacity that is
-- not 0; an empty queue has none.
check_threshold_mono :
    (depth depth' capacity capacity' : ℕ)
    → depth ≤ depth'
    → capacity' ≤ capacity
    → 0 < capacity'
    → (severity (check_threshold depth capacity) ≤ severity (check_threshold depth' capacity'))
      × (check_threshold 0 capacity ≡ green)
unfolding check_threshold
check_threshold_mono depth depth' capacity capacity' h c p = (ground arith, ground arith)

pop-take : (e : AlarmEvent) (es : List AlarmEvent) → pop (e ∷ es) ≡ take (length es) (e ∷ es)
unfolding pop
pop-take e [] = refl
pop-take e (f ∷ es) = ap (◌∷◌ e) (pop-take f es)

take-length : {A : Type 0} (xs : List A) (n : ℕ) → length xs ≤ n → take n xs ≡ xs
take-length [] zero h = refl
take-length [] (suc n) h = refl
take-length (x ∷ xs) zero h = absurd (omega arith)
take-length (x ∷ xs) (suc n) h = ap (◌∷◌ x) (take-length xs n (omega arith))

push-take :
    (n : ℕ) (e : AlarmEvent) (history : List AlarmEvent)
    → length history ≤ n
    → (if ltb n (suc (length history)) then pop (e ∷ history) else e ∷ history)
      ≡ take n (e ∷ history)
push-take n e history h = elim (Bool-cases (ltb n (suc (length history)))) [
  | inl l ↦
      let full : length history ≡ n = ground arith in
      rw l (pop-take e history ∙ ap (λ (k : ℕ). take k (e ∷ history)) full)
  | inr g ↦ rw g (sym (take-length (e ∷ history) n (ground arith)))
]

record_alarm-take :
    (now : ℕ) (level : AlarmLevel) (depth : ℕ) (history : List AlarmEvent)
    → length history ≤ 100
    → record_alarm now level depth history
      ≡ take 100 (record { level = level; depth = depth; timestamp = now } ∷ history)
unfolding record_alarm
record_alarm-take now level depth history h =
    push-take 100 (record { level = level; depth = depth; timestamp = now }) history h

take-take : {A : Type 0} (m n : ℕ) (xs : List A) → m ≤ n → take m (take n xs) ≡ take m xs
take-take zero n xs h = refl
take-take (suc m) zero xs h = absurd (omega arith)
take-take (suc m) (suc n) [] h = refl
take-take (suc m) (suc n) (x ∷ xs) h = ap (◌∷◌ x) (take-take m n xs (omega arith))

length-take-le : {A : Type 0} (n : ℕ) (xs : List A) → length (take n xs) ≤ n
length-take-le zero xs = omega arith
length-take-le (suc n) [] = omega arith
length-take-le (suc n) (x ∷ xs) = omega (arith, length-take-le n xs)

-- Alarms one after the other: the time, the level and the depth of each.
record_all : List (ℕ × AlarmLevel × ℕ) → List AlarmEvent → List AlarmEvent
record_all [] history = history
record_all ((now, level, depth) ∷ es) history = record_all es (record_alarm now level depth history)

-- The same without a bound: the latest comes first.
latest_first : List (ℕ × AlarmLevel × ℕ) → List AlarmEvent → List AlarmEvent
latest_first [] history = history
latest_first ((now, level, depth) ∷ es) history =
    latest_first es (record { level = level; depth = depth; timestamp = now } ∷ history)

record_all-take :
    (es : List (ℕ × AlarmLevel × ℕ)) (history : List AlarmEvent)
    → record_all es (take 100 history) ≡ take 100 (latest_first es history)
unfolding record_all latest_first
record_all-take [] history = refl
record_all-take ((now, level, depth) ∷ es) history =
    let e : AlarmEvent = record { level = level; depth = depth; timestamp = now } in
    ap (record_all es) (
      record_alarm-take now level depth (take 100 history) (length-take-le 100 history)
      ∙ ap (◌∷◌ e) (take-take 99 100 history (omega arith)))
    ∙ record_all-take es (e ∷ history)

-- After any alarms from an empty history on, the history that is answered for a limit up to 100 is
-- that of the latest alarms, the latest first, so many as the limit says or as there were.
get_alarm_history-record_all :
    (limit : ℕ) (es : List (ℕ × AlarmLevel × ℕ))
    → limit ≤ 100
    → get_alarm_history limit (record_all es []) ≡ take limit (latest_first es [])
unfolding get_alarm_history
get_alarm_history-record_all limit es h =
    ap (take limit) (record_all-take es []) ∙ take-take limit 100 (latest_first es []) h
