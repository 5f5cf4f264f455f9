-- ===== src/Security/ApiKeys/Revoked.antt =====
-- What a revocation of a key refuses, and what it lets through.
use queue_forge.Security.Headers.{trim_start, trim-plain, trim, IsPlain, is_blank, trim_end}
use queue_forge.Security.ApiKeys.{
  revoked, look_up, bad_format, from_cache, missing, ended, after_bar, hex_end, after_hex, is_hex,
  Context, has_text, is_key, Signed, KeyRecord, validate_api_key, revoke_api_key, Setup, KeyCache,
}
use queue_forge.Base.{
  ==_iff, Bool, Bool-cases, List, Option, Text, [], arith, codes, false, if◌then◌else◌, inl, inr,
  is_empty, is_prefix, none, not, or_text, refl, same_codes, same_codes_refl, some, subst, suc,
  true, zero, ℕ, ◌&&◌, ◌++◌, ◌==◌, ◌||◌, ◌∙◌, ◌∷◌, ◌≡◌, ◌≢◌,
}

trim_end-blank : (s : Text) → trim_end (s ++ 32 ∷ []) ≡ trim_end s
unfolding trim_end is_blank
trim_end-blank [] = refl
trim_end-blank (c ∷ s) = rw (trim_end-blank s) refl

is_hex-plain : (c : ℕ) → is_hex c ≡ true → ((c == 44) ≡ false) × (is_blank c ≡ false)
unfolding is_hex is_blank
is_hex-plain c h = ground arith

after_hex-IsPlain : (n : ℕ) (s rest : Text) → after_hex n s ≡ some rest → IsPlain rest → IsPlain s
unfolding after_hex IsPlain
after_hex-IsPlain zero s rest h p = subst IsPlain (cc) p
after_hex-IsPlain (suc n) [] rest h p = cc
after_hex-IsPlain (suc n) (c ∷ s) rest h p = elim (Bool-cases (is_hex c)) [
  | inl x ↦ ((is_hex-plain c x).0, (is_hex-plain c x).1, after_hex-IsPlain n s rest (rw x at h) p)
  | inr x ↦ cc (rw x at h)
]

ended→nil : (o : Option Text) → ended o ≡ true → o ≡ some []
unfolding ended
ended→nil none h = cc
ended→nil (some []) h = refl
ended→nil (some (c ∷ s)) h = cc

hex_end-IsPlain : (s : Text) → hex_end (some s) ≡ true → IsPlain s
unfolding hex_end IsPlain
hex_end-IsPlain s h = after_hex-IsPlain 16 s [] (ended→nil _ h) tt

after_bar-IsPlain : (s : Text) → hex_end (after_bar (some s)) ≡ true → IsPlain s
unfolding after_bar IsPlain hex_end is_blank
after_bar-IsPlain [] h = cc
after_bar-IsPlain (c ∷ s) h = elim (Bool-cases (c == 95)) [
  | inl x ↦ let bar = (==_iff c 95).0 x in (rw bar refl, rw bar refl, hex_end-IsPlain s (rw x at h))
  | inr x ↦ cc (rw x at h)
]

both-true : (a b : Bool) → (a && b) ≡ true → (a ≡ true) × (b ≡ true)
both-true true true h = (refl, refl)
both-true true false h = cc
both-true false b h = cc

rest-IsPlain :
    (o : Option Text) (s : Text) → after_hex 16 s ≡ o → hex_end (after_bar o) ≡ true → IsPlain s
unfolding after_bar hex_end
rest-IsPlain none s e h = cc
rest-IsPlain (some r) s e h = after_hex-IsPlain 16 s r e (after_bar-IsPlain r h)

starts : (s : Text) → is_prefix (codes "qf_") s ≡ true → (t : Text) × (s ≡ b'q' ∷ b'f' ∷ b'_' ∷ t)
starts [] h = cc
starts (a ∷ []) h = absurd (ground arith)
starts (a ∷ b ∷ []) h = absurd (ground arith)
starts (a ∷ b ∷ c ∷ t) h = (t, ground arith)

-- A key is `qf_` and a rest without blanks.
key_shape : (s : Text) → is_key s ≡ true → (t : Text) × (s ≡ b'q' ∷ b'f' ∷ b'_' ∷ t) × IsPlain t
unfolding is_key
key_shape s h =
    let (start, rest) = both-true _ _ h in
    let (t, e) = starts s start in (t, e, rest-IsPlain _ t refl (rw e at rest))

key-IsPlain : (t : Text) → IsPlain t → IsPlain (b'q' ∷ b'f' ∷ b'_' ∷ t)
unfolding IsPlain is_blank
key-IsPlain t p = (refl, refl, (refl, refl, (refl, refl, p)))

trim-key_blank :
    (t : Text) → IsPlain t → trim (b'q' ∷ b'f' ∷ b'_' ∷ (t ++ 32 ∷ [])) ≡ b'q' ∷ b'f' ∷ b'_' ∷ t
unfolding trim trim_start is_blank
trim-key_blank t p =
    trim_end-blank (b'q' ∷ b'f' ∷ b'_' ∷ t) ∙ trim-plain (b'q' ∷ b'f' ∷ b'_' ∷ t) (key-IsPlain t p)

-- Three early errors, and a fourth.
all_refused :
    (a b c : Bool) (context : Context)
    → (if a
        then inr missing
        else if b
        then inr bad_format
        else if c
        then inr revoked
        else inr revoked)
      ≢ inl context
all_refused true b c context h = cc
all_refused false true c context h = cc
all_refused false false true context h = cc
all_refused false false false context h = cc

or_self : (b : Bool) → (b || true) ≡ true
or_self true = refl
or_self false = refl

or_text_self : (s : Text) → or_text (some s) s ≡ s
or_text_self [] = refl
or_text_self (c ∷ s) = refl

module _ (C : KeyCache) (u : Setup) where
  -- Where a key with the right form has been revoked by its hash, it is refused by the process that
  -- revoked it, whatever the cache and the repository say then, and by every other one that reads
  -- the cache as it was left. But the same key with a blank behind it is accepted by all of them as
  -- a service that may read and write, as long as its own hash is another one that is neither
  -- revoked nor cached, and the repository does not find it.
  pub revoke_api_key_lem :
      (gone others : List Text) (s later : C.Store) (found : Option KeyRecord) (signed : Signed)
      (key : Text)
      → is_key key ≡ true
      → same_codes (u.hash key) (u.hash (key ++ 32 ∷ [])) ≡ false
      → has_text (u.hash (key ++ 32 ∷ [])) gone ≡ false
      → C.get (u.hash (key ++ 32 ∷ [])) s ≡ none
      → let (gone', s') = revoke_api_key C u gone s (u.hash key) in
        ((context : Context) → validate_api_key C u gone' later found key signed ≢ inl context)
        × ((context : Context) → validate_api_key C u others s' found key signed ≢ inl context)
        × (validate_api_key C u gone' s' none (key ++ 32 ∷ []) none
            ≡ inl (record {
              key = key ++ 32 ∷ [];
              name = codes "Default Service Key";
              roles = codes "SERVICE" ∷ [];
              permissions = codes "READ" ∷ codes "WRITE" ∷ [];
              scopes = codes "ingest" ∷ codes "read" ∷ codes "write" ∷ [];
              enabled = true;
            }))
  unfolding revoke_api_key validate_api_key
  revoke_api_key_lem gone others s later found signed key k d g f =
      let (t, e, p) = key_shape key k in
      let padded : trim (key ++ 32 ∷ []) ≡ key = rw e (trim-key_blank t p) in
      let start : is_prefix (codes "qf_") (key ++ 32 ∷ []) ≡ true = rw e refl in
      let full : is_empty (key ++ 32 ∷ []) ≡ false = rw e refl in
      (
        λ context a.
            all_refused (is_empty key) (not (is_key (trim key))) true context
              (rw (has_text, same_codes_refl (u.hash key)) at a),
        λ context a.
            all_refused (is_empty key) (not (is_key (trim key))) (has_text (u.hash key) others)
              context (rw (C.get-set (u.hash key) _ s) at a),
        rw
            (
              full,
              padded,
              k,
              has_text,
              d,
              g,
              C.get-set_other (u.hash key) (u.hash (key ++ 32 ∷ [])) _ s d,
              f,
            )
            (rw
              (
                from_cache,
                look_up,
                start,
                or_self (has_text (key ++ 32 ∷ []) u.configured),
                or_text_self (key ++ 32 ∷ []),
              )
              refl),
      )
