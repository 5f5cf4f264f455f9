-- ===== src/Examples/Limits.antt =====
-- Requests within a window.
use queue_forge.RateLimit.SlidingWindow.{wrapped}
use queue_forge.RateLimit.Limiter.{
  left_over, no_hits, counts_as, Check, check_all, consume_or_throw, get_remaining, AllUntil,
  check_limit-requests,
}
use queue_forge.Base.{List, Text, [], arith, codes, inl, inr, suc, ℕ, ◌+◌, ◌<◌, ◌∷◌, ◌≡◌, ◌≤◌}
use queue_forge.Base.{List, Text, [], arith, codes, inl, inr, suc, ℕ, ◌+◌, ◌<◌, ◌∷◌, ◌≡◌, ◌≤◌}

abbrev visitors : List (ℕ × Text)
visitors = (10, codes "a") ∷ (20, codes "b") ∷ (1500, codes "a") ∷ []

check_limit-requests_example :
    let m = check_all wrapped visitors 2 1000 no_hits in
    let (m', r) = consume_or_throw wrapped 2000 (codes "a") 2 1000 m in
    let n = counts_as wrapped 2000 1000 (codes "a") visitors in
    (n < 2
      → (c : Check) × (r ≡ inl c)
        × (c.remaining + suc n ≡ 2)
        × (get_remaining 1000 2000 (codes "a") 2 m' ≡ left_over wrapped 2 c.remaining))
    × (2 ≤ n
        → (c : Check) × (r ≡ inr c)
          × (c.remaining ≡ 0)
          × (get_remaining 1000 2000 (codes "a") 2 m' ≡ left_over wrapped 2 0))
unfolding AllUntil
check_limit-requests_example =
    check_limit-requests wrapped 2000 2 1000 (codes "a") visitors (omega arith)
      (omega arith, (omega arith, (omega arith, tt)))
