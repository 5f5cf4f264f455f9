-- ===== src/Delivery/Failure.antt =====
-- src/domain/value-objects/delivery-error.vo.ts: why a delivery attempt failed. Status codes are
-- natural numbers; texts are compared on the ASCII letters.
pub mod Laws
use queue_forge.Base.{
  ℕ, Bool, true, false, ◌||◌, ◌&&◌, Option, none, some, Text, codes, same_codes, includes, upper,
  or_text, is_empty, if◌then◌else◌, ltb, leb, ◌==◌, show_number, ◌++◌,
}

pub data Category : Type 0 where
  transient permanent network timeout server unknown : Category

abbrev pub category_text : Category → Text
category_text transient = codes "TRANSIENT"
category_text permanent = codes "PERMANENT"
category_text network = codes "NETWORK"
category_text timeout = codes "TIMEOUT"
category_text server = codes "SERVER"
category_text unknown = codes "UNKNOWN"

pub record Failure : Type 0 where
  pub category : Category
  pub message : Text
  pub status_code : Option ℕ
  pub delivery_id : Option Text

-- The third argument of the constructor.
pub data Third : Type 0 where
  absent : Third
  number : ℕ → Third
  retryable : Bool → Third

category_named : Text → Category
category_named s =
    if same_codes s (codes "TRANSIENT")
    then transient
    else if same_codes s (codes "PERMANENT")
    then permanent
    else if same_codes s (codes "NETWORK")
    then network
    else if same_codes s (codes "TIMEOUT")
    then timeout
    else if same_codes s (codes "SERVER")
    then server
    else unknown

build : Text → Text → Third → Option ℕ → Failure
unfolding category_named
build first message absent code = record {
  category = category_named (upper first);
  message = message;
  status_code = none;
  delivery_id = none;
}
build first message (number n) code = record {
  category = category_named (upper first);
  message = message;
  status_code = some n;
  delivery_id = none;
}
build first message (retryable b) code = record {
  category = if b then transient else permanent;
  message = message;
  status_code = code;
  delivery_id = some first;
}

-- The constructor; `none` is its ValidationError, for an empty message.
unfoldable pub make : Text → Text → Third → Option ℕ → Option Failure
unfolding build
make first message third code =
    if is_empty message then none else some (build first message third code)

-- The constructor with a category and a message.
abbrev pub of_category : Category → Text → Option Failure
of_category c message = make (category_text c) message absent none

abbrev retryable_category : Category → Bool
retryable_category transient = true
retryable_category network = true
retryable_category timeout = true
retryable_category server = true
retryable_category _ = false

unfoldable pub is_retryable : Failure → Bool
is_retryable e = retryable_category e.category

unfoldable get_delivery_id : Failure → Text
get_delivery_id e = or_text e.delivery_id (codes "")

same_code : Option ℕ → Option ℕ → Bool
same_code none none = true
same_code (some a) (some b) = a == b
same_code _ _ = false

unfoldable pub equals : Failure → Failure → Bool
unfolding same_code
equals e f =
    same_codes (category_text e.category) (category_text f.category)
    && (same_codes e.message f.message && same_code e.status_code f.status_code)

-- The categories that `fromStatusCode` gives.
pub status_category : ℕ → Category
status_category code =
    if (code == 408) || (code == 429)
    then transient
    else if leb 400 code && ltb code 500
    then permanent
    else if leb 500 code && ltb code 600
    then server
    else unknown

pub from_status_code : ℕ → Option Text → Option Failure
unfolding status_category
from_status_code code message =
    make (category_text (status_category code))
      (or_text message (codes "HTTP Status Code " ++ show_number code)) (number code) none

-- An exception: its message, what `String` makes of it, and its code.
pub record Exception : Type 0 where
  pub message : Option Text
  pub shown : Text
  pub code : Option Text

abbrev text_of : Exception → Text
text_of x = or_text x.message x.shown

abbrev code_of : Exception → Text
code_of x = or_text x.code (codes "")

exception_category : Exception → Category
exception_category x =
    if same_codes (code_of x) (codes "ECONNRESET")
      || (same_codes (code_of x) (codes "ECONNREFUSED")
          || (same_codes (code_of x) (codes "ENOTFOUND")
              || (includes (text_of x) (codes "ECONNREFUSED")
                  || (includes (text_of x) (codes "ECONNRESET")
                      || includes (text_of x) (codes "network")))))
    then network
    else if same_codes (code_of x) (codes "ETIMEDOUT")
        || (includes (text_of x) (codes "ETIMEDOUT") || includes (text_of x) (codes "timeout"))
    then timeout
    else unknown

unfoldable from_exception : Exception → Option Failure
unfolding exception_category
from_exception x = of_category (exception_category x) (text_of x)
