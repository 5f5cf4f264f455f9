-- ===== src/Security/Signatures/Replay.antt =====
-- Headers that come again.
use queue_forge.Security.Headers.{IsPlain}
use queue_forge.Security.Signatures.Roundtrip.{check-header, header}
use queue_forge.Redis.{Redis}
use queue_forge.Security.Signatures.{
  matches, is_replay_attack, max_age, check, Refusal, look_up, remember, seen_key, verify_legacy,
  Crypto,
}
use queue_forge.Base.{
  Bool-cases, List, Option-cases, Text, [], ap, arith, codes, false, inl, inr, leb, none, refl,
  same_codes, same_codes→eq, some, true, ℕ, ◌*◌, ◌+◌, ◌<◌, ◌∙◌, ◌∷◌, ◌≡◌, ◌≢◌, ◌≤◌, ◌⊎◌,
}

too_late : (now t later : ℕ) → t < now → now + 300000 ≤ later → is_replay_attack later t ≡ true
unfolding is_replay_attack
too_late now t later l h = ground arith

still_in_time :
    (now t later : ℕ)
    → is_replay_attack now t ≡ false
    → now ≤ later
    → later ≤ t + 300000
    → is_replay_attack later t ≡ false
unfolding is_replay_attack
still_in_time now t later e l h = ground arith

module _ (X : Crypto) (secret : Text) (R : Redis) where
  -- What other calls of `verifyLegacy` do: a whole call, with its time, payload and header, or, of
  -- one that asked Redis before, the command that remembers its hash.
  pub data Event : Type 0 where
    whole : ℕ → Text → Text → Event
    remembers : ℕ → Text → Event

  unfoldable pub time_of : Event → ℕ
  time_of (whole now payload signature) = now
  time_of (remembers now h) = now

  after_event : Event → R.Store → R.Store
  after_event (whole now payload signature) s = (verify_legacy X secret R now payload signature s).0
  after_event (remembers now h) s = remember X secret R now (inl h) s

  pub after_all : List Event → R.Store → R.Store
  unfolding after_event
  after_all [] s = s
  after_all (v ∷ vs) s = after_all vs (after_event v s)

  unfoldable pub AllBetween : ℕ → ℕ → List Event → Type 0
  AllBetween from until [] = Unit {0}
  AllBetween from until (v ∷ vs) =
      ((from ≤ time_of v) × (time_of v ≤ until)) × AllBetween from until vs

  abbrev Seen : ℕ → Text → R.Store → Type 0
  Seen t h s = R.get t (seen_key h) s ≡ some (codes "processed")

  remember-Seen :
      (now t : ℕ) (h : Text) (r : Text ⊎ Refusal) (s : R.Store)
      → now ≤ t
      → t < now + 300000
      → Seen t h s
      → Seen t h (remember X secret R now r s)
  unfolding remember seen_key
  remember-Seen now t h (inr e) s l u m = m
  remember-Seen now t h (inl g) s l u m = elim (Bool-cases (same_codes g h)) [
    | inl q ↦ rw (same_codes→eq g h q) (R.get-set_px now 300000 t (seen_key h) _ s l u)
    | inr q ↦ R.get-set_px_other now 300000 t (seen_key g) (seen_key h) _ s q ∙ m
  ]

  after_event-Seen :
      (t : ℕ) (h : Text) (v : Event) (s : R.Store)
      → time_of v ≤ t
      → t < time_of v + 300000
      → Seen t h s
      → Seen t h (after_event v s)
  unfolding after_event verify_legacy time_of
  after_event-Seen t h (whole now payload signature) s l u m = remember-Seen now t h _ s l u m
  after_event-Seen t h (remembers now g) s l u m = remember-Seen now t h (inl g) s l u m

  after_all-Seen :
      (from t : ℕ) (h : Text) (vs : List Event) (s : R.Store)
      → AllBetween from t vs
      → t < from + 300000
      → Seen t h s
      → Seen t h (after_all vs s)
  unfolding after_all AllBetween
  after_all-Seen from t h [] s b u m = m
  after_all-Seen from t h (v ∷ vs) s b u m =
      after_all-Seen from t h vs _ b.1 u
        (after_event-Seen t h v s b.0.1 (omega (arith, u, b.0.0)) m)

  taken : ℕ → Text → R.Store → R.Store
  taken now h s = R.set_px now (seen_key h) (codes "processed") (max_age * 1000) s

  -- What a header comes to: in time, matching and new it is accepted.
  verify-accepts :
      (now t : ℕ) (payload h : Text) (s : R.Store)
      → IsPlain h
      → is_replay_attack now t ≡ false
      → matches X secret payload h t ≡ true
      → R.get now (seen_key h) s ≡ none
      → verify_legacy X secret R now payload (header X secret t h) s ≡ (taken now h s, inl h)
  unfolding verify_legacy look_up remember taken
  verify-accepts now t payload h s p e m f =
      rw (check-header X secret now t payload h p, e, m) (rw f refl)

  verify-expired :
      (now t : ℕ) (payload h g : Text) (s : R.Store)
      → IsPlain h
      → is_replay_attack now t ≡ true
      → (verify_legacy X secret R now payload (header X secret t h) s).1 ≢ inl g
  unfolding verify_legacy look_up remember
  verify-expired now t payload h g s p e a =
      cc (rw (check-header X secret now t payload h p, e) at a)

  verify-mismatch :
      (now t : ℕ) (payload h g : Text) (s : R.Store)
      → IsPlain h
      → is_replay_attack now t ≡ false
      → matches X secret payload h t ≡ false
      → (verify_legacy X secret R now payload (header X secret t h) s).1 ≢ inl g
  unfolding verify_legacy look_up remember
  verify-mismatch now t payload h g s p e m a =
      cc (rw (check-header X secret now t payload h p, e, m) at a)

  verify-seen :
      (now t : ℕ) (payload h g v : Text) (s : R.Store)
      → IsPlain h
      → R.get now (seen_key h) s ≡ some v
      → (verify_legacy X secret R now payload (header X secret t h) s).1 ≢ inl g
  unfolding verify_legacy look_up remember
  verify-seen now t payload h g v s p f a = elim (Bool-cases (is_replay_attack now t)) [
    | inl e ↦ verify-expired now t payload h g s p e a
    | inr e ↦ elim (Bool-cases (matches X secret payload h t)) [
      | inl m ↦ cc (rw (check-header X secret now t payload h p, e, m, f) at a)
      | inr m ↦ verify-mismatch now t payload h g s p e m a
    ]
  ]

  -- What is known of a header that was accepted.
  accepted :
      (now t : ℕ) (payload h g : Text) (s : R.Store)
      → IsPlain h
      → (verify_legacy X secret R now payload (header X secret t h) s).1 ≡ inl g
      → (is_replay_attack now t ≡ false)
        × (matches X secret payload h t ≡ true)
        × ((verify_legacy X secret R now payload (header X secret t h) s).0 ≡ taken now h s)
  accepted now t payload h g s p a = elim (Bool-cases (is_replay_attack now t)) [
    | inl e ↦ absurd (verify-expired now t payload h g s p e a)
    | inr e ↦ elim (Bool-cases (matches X secret payload h t)) [
      | inr m ↦ absurd (verify-mismatch now t payload h g s p e m a)
      | inl m ↦ elim (Option-cases (R.get now (seen_key h) s)) [
        | inl f ↦ (e, m, rw (verify-accepts now t payload h s p e m f) refl)
        | inr (v, f) ↦ absurd (verify-seen now t payload h g v s p f a)
      ]
    ]
  ]

  -- A header that Redis did not know and that was accepted after its time is not accepted by a
  -- call that comes after its hash was remembered: not for any payload, at no later time, and
  -- whatever other calls do in between, also those that asked Redis before. Calls that ask for the
  -- same hash before it is remembered are no matter of this.
  pub replay_refused :
      (now t at later : ℕ) (payload again h g : Text) (vs : List Event) (asked s : R.Store)
      → let signature = header X secret t h in
        IsPlain h
        → t < now
        → look_up X secret R now (check X secret now payload signature) asked ≡ inl h
        → now ≤ at
        → at ≤ later
        → AllBetween at later vs
        → let stored =
            remember X secret R at
              (look_up X secret R now (check X secret now payload signature) asked)
              s in
          (verify_legacy X secret R later again signature (after_all vs stored)).1 ≢ inl g
  unfolding remember seen_key
  replay_refused now t at later payload again h g vs asked s p l a n m b =
      elim (Bool-cases (leb (now + 300000) later)) [
        | inl far ↦ verify-expired later t again h g _ p (too_late now t later l (ground arith))
        | inr near ↦ rw a (
            verify-seen later t again h g (codes "processed") _ p (
              after_all-Seen at later h vs _ b (ground arith)
                (R.get-set_px at 300000 later (seen_key h) _ s m (ground arith))))
      ]

  -- A header with a time in the future is accepted for its payload a second time, as soon as five
  -- minutes have passed since the first one and until they have since its own time.
  pub future_replayed :
      (now t later : ℕ) (payload h : Text) (s : R.Store)
      → let signature = header X secret t h in
        IsPlain h
        → (verify_legacy X secret R now payload signature s).1 ≡ inl h
        → now + 300000 < later
        → later ≤ t + 300000
        → (verify_legacy X secret R later payload signature
            (verify_legacy X secret R now payload signature s).0).1
          ≡ inl h
  unfolding taken seen_key
  future_replayed now t later payload h s p a l u =
      let (e, m, stored) = accepted now t payload h h s p a in
      rw stored (
        ap (λ r. r.1)
          (verify-accepts later t payload h _ p (still_in_time now t later e (omega arith) u) m
            (R.get-set_px_late now 300000 later (seen_key h) _ s l)))

  same_bytes :
      (payload h g : Text) (t : ℕ)
      → X.bytes h ≡ X.bytes g
      → matches X secret payload h t ≡ true
      → matches X secret payload g t ≡ true
  unfolding matches
  same_bytes payload h g t b m = rw (← b) m

  -- A header that was accepted is accepted at once again under another spelling of its hash, with
  -- the same bytes, which was not seen itself.
  pub respelled_replayed :
      (now t later : ℕ) (payload h g : Text) (s : R.Store)
      → IsPlain h
      → IsPlain g
      → same_codes h g ≡ false
      → X.bytes h ≡ X.bytes g
      → (verify_legacy X secret R now payload (header X secret t h) s).1 ≡ inl h
      → now ≤ later
      → later ≤ t + 300000
      → R.get later (seen_key g) s ≡ none
      → (verify_legacy X secret R later payload
          (header X secret t g)
          (verify_legacy X secret R now payload (header X secret t h) s).0).1
        ≡ inl g
  unfolding taken seen_key
  respelled_replayed now t later payload h g s p q d b a l u f =
      let (e, m, stored) = accepted now t payload h h s p a in
      rw stored (
        ap (λ r. r.1)
          (verify-accepts later t payload g _ q (still_in_time now t later e l u)
            (same_bytes payload h g t b m)
            (R.get-set_px_other now 300000 later (seen_key h) (seen_key g) _ s d ∙ f)))
