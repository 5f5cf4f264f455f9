-- ===== src/Delivery/Status/Laws.antt =====
-- What the status value object promises.
use queue_forge.Base.{
  ◌≡◌, refl, sym, subst, Bool, true, false, not, ◌&&◌, ◌||◌, some, Text, codes, same_codes,
  same_codes→eq, arith, Bool-cases, inl, inr, List, [], ◌∷◌, ℕ, suc, if◌then◌else◌,
}
use queue_forge.Delivery.Status.{
  Status, pending, processing, completed, scheduled_retry, failed_dlq, RawStatus, plain, create,
  get_value, kind, classify, LooseStatus, loose, loose_text, names_dlq, is_pending, is_processing,
  is_completed, is_scheduled_for_retry, is_in_dlq, pending_loosely, processing_loosely,
  completed_loosely, scheduled_retry_loosely, failed_dlq_loosely,
}

-- A status is read back from its value.
create-get_value : (s : Status) → create (plain (get_value s)) ≡ some s
unfolding create get_value
create-get_value pending = refl
create-get_value processing = refl
create-get_value completed = refl
create-get_value scheduled_retry = refl
create-get_value failed_dlq = refl

-- A status is read back from its lower-case kind.
create-kind : (s : Status) → create (plain (kind s)) ≡ some s
unfolding create kind
create-kind pending = refl
create-kind processing = refl
create-kind completed = refl
create-kind scheduled_retry = refl
create-kind failed_dlq = refl

abbrev count_true : List Bool → ℕ
count_true [] = 0
count_true (true ∷ bs) = suc (count_true bs)
count_true (false ∷ bs) = count_true bs

-- The five free functions at one value, in the order of the file.
abbrev loosely : LooseStatus → List Bool
loosely l =
    pending_loosely l
    ∷ processing_loosely l
    ∷ completed_loosely l
    ∷ scheduled_retry_loosely l
    ∷ failed_dlq_loosely l
    ∷ []

-- The same as the methods of a status see it.
abbrev strictly : Status → List Bool
strictly s =
    is_pending s ∷ is_processing s ∷ is_completed s ∷ is_scheduled_for_retry s ∷ is_in_dlq s ∷ []

-- The five functions as they see the text in upper case.
abbrev text_flags : Text → List Bool
text_flags t =
    same_codes t (codes "PENDING")
    ∷ same_codes t (codes "PROCESSING")
    ∷ same_codes t (codes "COMPLETED")
    ∷ (same_codes t (codes "SCHEDULED_RETRY") || same_codes t (codes "SCHEDULEDRETRY"))
    ∷ (if names_dlq t
        then true
        else (not (same_codes t (codes "PENDING"))
            && (not (same_codes t (codes "PROCESSING"))
                && (not (same_codes t (codes "COMPLETED"))
                    && not (
                        same_codes t (codes "SCHEDULED_RETRY")
                        || same_codes t (codes "SCHEDULEDRETRY"))))))
    ∷ []

-- What holds at each of the names, and wherever none of them fits, holds at every text.
by_name {ℓ} :
    (P : Text → Type ℓ) (t : Text)
    → P (codes "PENDING")
    → P (codes "PROCESSING")
    → P (codes "COMPLETED")
    → P (codes "SCHEDULED_RETRY")
    → P (codes "SCHEDULEDRETRY")
    → ((same_codes t (codes "PENDING") ≡ false)
        → (same_codes t (codes "PROCESSING") ≡ false)
        → (same_codes t (codes "COMPLETED") ≡ false)
        → (same_codes t (codes "SCHEDULED_RETRY") ≡ false)
        → (same_codes t (codes "SCHEDULEDRETRY") ≡ false)
        → P t)
    → P t
by_name P t a b c d e other = elim (Bool-cases (same_codes t (codes "PENDING"))) [
  | inl h ↦ subst P (sym (same_codes→eq t _ h)) a
  | inr ha ↦ elim (Bool-cases (same_codes t (codes "PROCESSING"))) [
    | inl h ↦ subst P (sym (same_codes→eq t _ h)) b
    | inr hb ↦ elim (Bool-cases (same_codes t (codes "COMPLETED"))) [
      | inl h ↦ subst P (sym (same_codes→eq t _ h)) c
      | inr hc ↦ elim (Bool-cases (same_codes t (codes "SCHEDULED_RETRY"))) [
        | inl h ↦ subst P (sym (same_codes→eq t _ h)) d
        | inr hd ↦ elim (Bool-cases (same_codes t (codes "SCHEDULEDRETRY"))) [
          | inl h ↦ subst P (sym (same_codes→eq t _ h)) e
          | inr he ↦ other ha hb hc hd he
        ]
      ]
    ]
  ]
]

text_flags_one : (t : Text) → count_true (text_flags t) ≡ 1
unfolding names_dlq
text_flags_one t =
    by_name (λ s. count_true (text_flags s) ≡ 1) t refl refl refl refl refl
      λ a b c d e. ground arith

-- Every truthy value satisfies exactly one of the five free functions.
loosely_one : (raw : RawStatus) → count_true (loosely (loose raw)) ≡ 1
unfolding loose_text pending_loosely processing_loosely completed_loosely scheduled_retry_loosely
    failed_dlq_loosely
loosely_one raw = text_flags_one (loose_text raw)

classify-text_flags : (t : Text) (s : Status) → classify t ≡ some s → text_flags t ≡ strictly s
unfolding names_dlq classify
classify-text_flags t s =
    by_name (λ t. classify t ≡ some s → text_flags t ≡ strictly s) t (λ h. ground arith)
      (λ h. ground arith) (λ h. ground arith) (λ h. ground arith) (λ h. ground arith)
      λ a b c d e h. ground arith

-- At a value that the constructor accepts the free functions say what the methods say.
loosely-strictly :
    (raw : RawStatus) (s : Status) → create raw ≡ some s → loosely (loose raw) ≡ strictly s
unfolding create loose_text pending_loosely processing_loosely completed_loosely
    scheduled_retry_loosely failed_dlq_loosely
loosely-strictly raw s = classify-text_flags (loose_text raw) s
