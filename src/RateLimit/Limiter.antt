-- ===== src/RateLimit/Limiter.antt =====
-- src/security/rate-limiting/rate-limiter.ts over the sliding window, in memory and over the
-- program's Redis wrapper: what each request is answered. The headers are left out; limits and
-- windows are given with each call, as its defaults are.
use queue_forge.RateLimit.SlidingWindow.{
  increment, get_count, in_window, in_window-append, in_window-twice, timestamps, Backing,
  in_memory, wrapped, Counts,
}
use queue_forge.Base.Maps.{find, find-put}
use queue_forge.Base.{
  Bool, Bool-cases, List, Text, [], ap, arith, false, if◌then◌else◌, inl, inr, leb, length,
  length-append, le→leb, ltb, lt→ltb, refl, same_codes, same_codes_refl, same_codes→eq, suc, true,
  zero, ℕ, ◌&&◌, ◌++◌, ◌+◌, ◌-◌, ◌/◌, ◌<◌, ◌∙◌, ◌∷◌, ◌≡◌, ◌≤◌, ◌⊎◌,
}

-- `RateLimitCheckResult`.
pub record Check : Type 0 where
  pub allowed : Bool
  pub limit : ℕ
  pub remaining : ℕ
  pub reset_time : ℕ
  pub retry_after_seconds : ℕ

check_limit : Backing → ℕ → Text → ℕ → ℕ → Counts → Counts × Check
check_limit b now key limit window m =
    let (m', count) = increment b now window key m in
    (
      m',
      record {
        allowed = leb count limit;
        limit = limit;
        remaining = limit - count;
        reset_time = now + window;
        retry_after_seconds = (window + 999) / 1000;
      },
    )

-- A RateLimitError carries the fields of the check.
pub consume_or_throw : Backing → ℕ → Text → ℕ → ℕ → Counts → Counts × (Check ⊎ Check)
unfolding check_limit
consume_or_throw b now key limit window m =
    let (m', c) = check_limit b now key limit window m in (m', if c.allowed then inl c else inr c)

-- `increment` with a number of hits, all with the default window.
unfoldable increment_by : Backing → ℕ → ℕ → ℕ → Text → Counts → Counts × ℕ
increment_by b zero now window key m = (m, 0)
increment_by b (suc zero) now window key m = increment b now window key m
increment_by b (suc (suc n)) now window key m =
    increment_by b (suc n) now window key (increment b now window key m).0

-- With the limiter's default window, whatever the window of the calls is.
pub get_remaining : ℕ → ℕ → Text → ℕ → Counts → ℕ
get_remaining default_window now key limit m = limit - get_count now default_window key m

abbrev pub no_hits : Counts
no_hits = record { memory = []; sets = [] }

-- Requests with their times and keys, the first one first.
pub check_all : Backing → List (ℕ × Text) → ℕ → ℕ → Counts → Counts
unfolding consume_or_throw
check_all b [] limit window m = m
check_all b ((t, k) ∷ rs) limit window m =
    check_all b rs limit window (consume_or_throw b t k limit window m).0

-- How many of the requests were for a key and within a window up to a time.
pub requests : ℕ → ℕ → Text → List (ℕ × Text) → ℕ
requests now window key [] = 0
requests now window key ((t, k) ∷ rs) =
    let rest = requests now window key rs in
    if same_codes k key && ltb now (t + window) then suc rest else rest

-- How many were for a key, whenever that was.
pub requests_ever : Text → List (ℕ × Text) → ℕ
requests_ever key [] = 0
requests_ever key ((t, k) ∷ rs) =
    let rest = requests_ever key rs in if same_codes k key then suc rest else rest

unfoldable pub AllUntil : ℕ → List (ℕ × Text) → Type 0
AllUntil now [] = Unit {0}
AllUntil now ((t, k) ∷ rs) = (t ≤ now) × AllUntil now rs

count_one :
    (t now window : ℕ) (ts : List ℕ)
    → t ≤ now
    → length (in_window now window (in_window t window ts ++ t ∷ []))
      ≡ length (in_window now window ts) + (if ltb now (t + window) then 1 else 0)
unfolding in_window
count_one t now window ts l =
    rw
      (
        in_window-append now window (in_window t window ts) (t ∷ []),
        in_window-twice t now window ts l,
      )
      (elim (Bool-cases (ltb now (t + window))) [
        | inl y ↦ rw y (omega (arith, length-append (in_window now window ts) (t ∷ [])))
        | inr y ↦ rw y (omega (arith, length-append (in_window now window ts) []))
      ])

count_request :
    (t now window : ℕ) (k key : Text) (m : Counts)
    → t ≤ now
    → get_count now window key (increment in_memory t window k m).0
      ≡ get_count now window key m + requests now window key ((t, k) ∷ [])
unfolding get_count increment requests timestamps
count_request t now window k key m l = elim (Bool-cases (same_codes k key)) [
  | inl y ↦
      rw (find-put, y, same_codes→eq k key y)
        (count_one t now window (timestamps (find key m.memory)) l ∙ refl)
  | inr y ↦ rw (find-put, y) (omega arith)
]

count_requests :
    (now limit window : ℕ) (key : Text) (rs : List (ℕ × Text)) (m : Counts)
    → AllUntil now rs
    → get_count now window key (check_all in_memory rs limit window m)
      ≡ get_count now window key m + requests now window key rs
unfolding check_all requests AllUntil
count_requests now limit window key [] m a = omega arith
count_requests now limit window key ((t, k) ∷ rs) m a =
    let r = count_requests now limit window key rs (increment in_memory t window k m).0 a.1 in
    let o = count_request t now window k key m a.0 in
    elim (Bool-cases (same_codes k key && ltb now (t + window))) [
      | inl y ↦ rw y (omega (arith, r, rw y at o))
      | inr y ↦ rw y (omega (arith, r, rw y at o))
    ]

none_left : (limit n : ℕ) → limit ≤ n → limit - suc n ≡ 0
none_left limit n l = omega arith

over : (n limit : ℕ) → limit ≤ n → leb (suc n) limit ≡ false
over n limit l = ground arith

count_before :
    (now limit window : ℕ) (key : Text) (rs : List (ℕ × Text))
    → AllUntil now rs
    → get_count now window key (check_all in_memory rs limit window no_hits)
      ≡ requests now window key rs
unfolding get_count find timestamps in_window
count_before now limit window key rs a =
    count_requests now limit window key rs no_hits a ∙ omega arith

counted :
    (now limit window : ℕ) (key : Text) (rs : List (ℕ × Text))
    → AllUntil now rs
    → (increment in_memory now window key (check_all in_memory rs limit window no_hits)).1
      ≡ suc (requests now window key rs)
unfolding increment get_count
counted now limit window key rs a =
    let m = check_all in_memory rs limit window no_hits in
    omega (
      arith,
      length-append (in_window now window (timestamps (find key m.memory))) (now ∷ []),
      count_before now limit window key rs a,
    )

counted_after :
    (now limit window : ℕ) (key : Text) (rs : List (ℕ × Text))
    → 0 < window
    → AllUntil now rs
    → get_count now window key
        (increment in_memory now window key (check_all in_memory rs limit window no_hits)).0
      ≡ suc (requests now window key rs)
unfolding requests
counted_after now limit window key rs w a =
    let one =
      count_request now now window key key (check_all in_memory rs limit window no_hits)
        (omega arith) in
    let y : ltb now (now + window) ≡ true = lt→ltb now (now + window) (omega arith) in
    let one' = rw (same_codes_refl key, y) at one in
    omega (arith, one', count_before now limit window key rs a)

none_yet : (key : Text) (n : ℕ) → n ≡ n + requests_ever key []
unfolding requests_ever
none_yet key n = omega arith

empty_set : (key : Text) → length (timestamps (find key no_hits.sets)) ≡ 0
unfolding find timestamps
empty_set key = refl

sets_after :
    (t window : ℕ) (k key : Text) (m : Counts)
    → length (timestamps (find key (increment wrapped t window k m).0.sets))
      ≡ length (timestamps (find key m.sets)) + requests_ever key ((t, k) ∷ [])
unfolding increment requests_ever timestamps
sets_after t window k key m = elim (Bool-cases (same_codes k key)) [
  | inl y ↦
      rw (find-put, y, same_codes→eq k key y)
        (length-append (timestamps (find key m.sets)) (t ∷ []))
  | inr y ↦ rw (find-put, y) (omega arith)
]

requests_ever_cons :
    (t : ℕ) (k key : Text) (rs : List (ℕ × Text))
    → requests_ever key ((t, k) ∷ rs) ≡ requests_ever key ((t, k) ∷ []) + requests_ever key rs
unfolding requests_ever
requests_ever_cons t k key rs = ground arith

counted_sets :
    (limit window : ℕ) (key : Text) (rs : List (ℕ × Text)) (m : Counts)
    → length (timestamps (find key (check_all wrapped rs limit window m).sets))
      ≡ length (timestamps (find key m.sets)) + requests_ever key rs
unfolding check_all consume_or_throw check_limit
counted_sets limit window key [] m = none_yet key (length (timestamps (find key m.sets)))
counted_sets limit window key ((t, k) ∷ rs) m = omega (
  arith,
  counted_sets limit window key rs (increment wrapped t window k m).0,
  sets_after t window k key m,
  requests_ever_cons t k key rs,
)

counted_ever :
    (now limit window : ℕ) (key : Text) (rs : List (ℕ × Text))
    → (increment wrapped now window key (check_all wrapped rs limit window no_hits)).1
      ≡ suc (requests_ever key rs)
unfolding increment
counted_ever now limit window key rs =
    let m = check_all wrapped rs limit window no_hits in
    omega (
      arith,
      length-append (timestamps (find key m.sets)) (now ∷ []),
      counted_sets limit window key rs no_hits,
      empty_set key,
    )

-- Nothing is put into the memory over the wrapper.
memory_unused :
    (limit window : ℕ) (rs : List (ℕ × Text)) (m : Counts)
    → (check_all wrapped rs limit window m).memory ≡ m.memory
unfolding increment check_all consume_or_throw check_limit
memory_unused limit window [] m = refl
memory_unused limit window ((t, k) ∷ rs) m =
    memory_unused limit window rs (increment wrapped t window k m).0

-- The requests that a limiter counts: in memory those within the window, over the wrapper all.
pub counts_as : Backing → ℕ → ℕ → Text → List (ℕ × Text) → ℕ
counts_as in_memory now window key rs = requests now window key rs
counts_as wrapped now window key rs = requests_ever key rs

-- What getRemaining says after an answer with so many remaining: over the wrapper, the limit.
pub left_over : Backing → ℕ → ℕ → ℕ
left_over in_memory limit n = n
left_over wrapped limit n = limit

counted_by :
    (b : Backing) (now limit window : ℕ) (key : Text) (rs : List (ℕ × Text))
    → AllUntil now rs
    → (increment b now window key (check_all b rs limit window no_hits)).1
      ≡ suc (counts_as b now window key rs)
unfolding counts_as find timestamps
counted_by in_memory now limit window key rs a = counted now limit window key rs a
counted_by wrapped now limit window key rs a = counted_ever now limit window key rs

left_by :
    (b : Backing) (now limit window : ℕ) (key : Text) (rs : List (ℕ × Text))
    → 0 < window
    → AllUntil now rs
    → limit
        - get_count now window key
            (increment b now window key (check_all b rs limit window no_hits)).0
      ≡ left_over b limit (limit - suc (counts_as b now window key rs))
unfolding counts_as left_over get_count increment find timestamps in_window
left_by in_memory now limit window key rs w a = rw (counted_after now limit window key rs w a) refl
left_by wrapped now limit window key rs w a =
    rw (memory_unused limit window rs no_hits) (omega arith)

-- After any requests up to a time, a request is let through exactly where the limit is at least the
-- number of requests counted for its key, itself and refused ones included; the answer says how many
-- remain. In memory those within the window that ends then are counted, and getRemaining says the
-- same number next, where the window is its default one; over the program's Redis wrapper every
-- request ever made is counted, and getRemaining says the whole limit.
pub check_limit-requests :
    (b : Backing) (now limit window : ℕ) (key : Text) (rs : List (ℕ × Text))
    → 0 < window
    → AllUntil now rs
    → let m = check_all b rs limit window no_hits in
      let (m', r) = consume_or_throw b now key limit window m in
      let n = counts_as b now window key rs in
      (n < limit
        → (c : Check) × (r ≡ inl c)
          × (c.remaining + suc n ≡ limit)
          × (get_remaining window now key limit m' ≡ left_over b limit c.remaining))
      × (limit ≤ n
          → (c : Check) × (r ≡ inr c)
            × (c.remaining ≡ 0)
            × (get_remaining window now key limit m' ≡ left_over b limit 0))
unfolding consume_or_throw get_remaining check_limit
check_limit-requests b now limit window key rs w a =
    let c = counted_by b now limit window key rs a in
    let left = left_by b now limit window key rs w a in
    let n = counts_as b now window key rs in
    (
      λ l. rw (c, left, le→leb (suc n) limit (omega arith)) (_, refl, omega arith, refl),
      λ l.
          rw (c, left, over n limit l)
            (_, refl, omega arith, ap (left_over b limit) (none_left limit n l)),
    )
