-- ===== src/Delivery/Failure/Laws.antt =====
-- Which failures are retried, by status code and by category.
use queue_forge.Base.{
  Bool, Option, Text, arith, codes, false, is_empty, leb, ltb, none, or_text, refl, show_number,
  some, true, ℕ, ◌&&◌, ◌++◌, ◌==◌, ◌||◌, ◌↔◌, ◌≡◌,
}
use queue_forge.Delivery.Failure.{
  transient, number, category_text, Category, permanent, make, from_status_code, status_category,
  is_retryable, Failure,
}
use queue_forge.Delivery.Entity.{should_move_to_dead_letter_queue}

-- The status codes that call for a retry.
abbrev pub retry_code : ℕ → Bool
retry_code code = (code == 408) || ((code == 429) || (leb 500 code && ltb code 600))

-- A failure is made of a category's name and a message that is not empty, with that category.
made :
    (c : Category) (message : Text) (third : ℕ)
    → is_empty message ≡ false
    → make (category_text c) message (number third) none
      ≡ some
          (record { category = c; message = message; status_code = some third; delivery_id = none })
unfolding make
made transient message third h = rw h
made _ message third h = rw h

status_failure : ℕ → Option Text → Failure
status_failure code message = record {
  category = status_category code;
  message = or_text message (codes "HTTP Status Code " ++ show_number code);
  status_code = some code;
  delivery_id = none;
}

-- A failure is made of every status code; it carries the code, it is retryable exactly for 408, 429
-- and the codes from 500 to 599, and it is permanent exactly where the entity sends the code to the
-- dead letter queue at once.
pub from_status_code_retryable :
    (code : ℕ) (message : Option Text)
    → (e : Failure) × (from_status_code code message ≡ some e)
      × (e.status_code ≡ some code)
      × (is_retryable e ≡ retry_code code)
      × ((e.category ≡ permanent) ↔ (should_move_to_dead_letter_queue code ≡ true))
unfolding status_failure is_retryable from_status_code should_move_to_dead_letter_queue
    status_category
from_status_code_retryable code message = (
  status_failure code message,
  made (status_category code) _ code (ground arith),
  refl,
  ground arith,
  (λ h. ground arith, λ h. ground arith),
)
