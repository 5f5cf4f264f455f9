-- ===== src/Repository/Deliveries/Totals.antt =====
-- The deliveries by their statuses.
use queue_forge.Repository.Deliveries.{Row, find_by_status, count_by_status, count}
use queue_forge.Base.{List, [], arith, if◌then◌else◌, length, refl, suc, ℕ, ◌+◌, ◌∷◌, ◌≡◌}
use queue_forge.Delivery.Status

count-cons :
    (s : Status.Status) (r : Row) (rs : List Row)
    → count s (r ∷ rs) ≡ (if Status.equals r.status s then suc (count s rs) else count s rs)
unfolding count find_by_status
count-cons s r rs = ground arith

count-nil :
    count Status.pending []
      + (count Status.processing []
          + (count Status.completed []
              + (count Status.scheduled_retry [] + count Status.failed_dlq [])))
    ≡ 0
unfolding count find_by_status
count-nil = refl

one_more :
    (s : Status.Status) (a b c d e n : ℕ)
    → a + (b + (c + (d + e))) ≡ n
    → (if Status.equals s Status.pending then suc a else a)
        + ((if Status.equals s Status.processing then suc b else b)
            + ((if Status.equals s Status.completed then suc c else c)
                + ((if Status.equals s Status.scheduled_retry then suc d else d)
                    + (if Status.equals s Status.failed_dlq then suc e else e))))
      ≡ suc n
unfolding Status.equals Status.get_value
one_more Status.pending a b c d e n h = omega (arith, h)
one_more Status.processing a b c d e n h = omega (arith, h)
one_more Status.completed a b c d e n h = omega (arith, h)
one_more Status.scheduled_retry a b c d e n h = omega (arith, h)
one_more Status.failed_dlq a b c d e n h = omega (arith, h)

-- The counts by status are together the number of the stored deliveries.
count_by_status_total :
    (rs : List Row)
    → let c = count_by_status rs in
      c.pending + (c.processing + (c.completed + (c.scheduled_retry + c.failed_dlq))) ≡ length rs
unfolding count_by_status
count_by_status_total [] = count-nil
count_by_status_total (r ∷ rs) =
    rw
      (
        count-cons Status.pending r rs,
        count-cons Status.processing r rs,
        count-cons Status.completed r rs,
        count-cons Status.scheduled_retry r rs,
        count-cons Status.failed_dlq r rs,
      )
      (one_more r.status _ _ _ _ _ (length rs) (count_by_status_total rs))
