-- ===== src/Security/Signatures/Roundtrip.antt =====
-- Headers as they are built and read.
use queue_forge.Redis.{Redis}
use queue_forge.Security.Headers.{split-two, trim-plain, split, first_part, IsPlain, is_blank}
use queue_forge.Security.Signatures.{
  mismatch, sign, matches, seen_key, expired, is_replay_attack, look_up, remember, check_hash,
  after, verify_legacy, check_time, dated, build_hmac_header, check, field, extract_timestamp,
  Crypto,
}
use queue_forge.Base.{
  Text, [], arith, codes, false, if◌then◌else◌, inl, inr, length, none, refl, same_codes_refl, some,
  ℕ, ◌++◌, ◌+◌, ◌-◌, ◌<◌, ◌∷◌, ◌≡◌, ◌≤◌,
}

module _ (X : Crypto) (secret : Text) where
  -- A header of a time and a hash.
  unfoldable pub header : ℕ → Text → Text
  header t h = (codes "t=" ++ X.iso t) ++ 44 ∷ (codes "s=" ++ h)

  split-header :
      (t : ℕ) (h : Text)
      → IsPlain h
      → split 44 (header t h) ≡ (codes "t=" ++ X.iso t) ∷ (codes "s=" ++ h) ∷ []
  unfolding header is_blank IsPlain
  split-header t h p =
      split-two (codes "t=" ++ X.iso t) (codes "s=" ++ h)
        (refl, refl, (refl, refl, X.iso-IsPlain t)) (refl, refl, (refl, refl, p))

  pub extract_timestamp-header :
      (t : ℕ) (h : Text) → IsPlain h → extract_timestamp X secret (header t h) ≡ some t
  unfolding extract_timestamp field first_part is_blank IsPlain
  extract_timestamp-header t h p =
      rw
        (
          split-header t h p,
          trim-plain (codes "t=" ++ X.iso t) (refl, refl, (refl, refl, X.iso-IsPlain t)),
        )
        (rw
          (
            after,
            trim-plain (codes "t=" ++ X.iso t) (refl, refl, (refl, refl, X.iso-IsPlain t)),
            dated,
          )
          (X.parse_date-iso t))

  pub field-header : (t : ℕ) (h : Text) → IsPlain h → field (codes "s=") (header t h) ≡ some h
  unfolding field first_part is_blank IsPlain
  field-header t h p =
      rw
        (
          split-header t h p,
          trim-plain (codes "t=" ++ X.iso t) (refl, refl, (refl, refl, X.iso-IsPlain t)),
          trim-plain (codes "s=" ++ h) (refl, refl, (refl, refl, p)),
        )
        (rw (after, trim-plain (codes "s=" ++ h) (refl, refl, (refl, refl, p))) refl)

  -- What a check of such a header comes to.
  pub check-header :
      (now t : ℕ) (payload h : Text)
      → IsPlain h
      → check X secret now payload (header t h) ≡ (
          if is_replay_attack now t
          then inr expired
          else if matches X secret payload h t
          then inl h
          else inr mismatch)
  unfolding check check_time check_hash
  check-header now t payload h p =
      rw (extract_timestamp-header t h p) (rw (field-header t h p) refl)

  pub sign-IsPlain : (payload : Text) (t : ℕ) → IsPlain (sign X secret payload t)
  unfolding sign
  sign-IsPlain payload t = X.hmac-IsPlain secret (X.iso t ++ (codes "." ++ payload))

  in_time : (now t : ℕ) → now ≤ t + 300000 → t ≤ now + 300000 → is_replay_attack now t ≡ false
  unfolding is_replay_attack
  in_time now t a b = ground arith

  -- A header that is built with the secret of the verifier, of at least 32 characters, is accepted
  -- for its payload up to five minutes after and before its time, where its signature was not seen
  -- yet, and refused as expired at any other time. For a shorter secret no header is built.
  pub built_header_verifies :
      (R : Redis) (t now : ℕ) (payload : Text) (s : R.Store)
      → (32 ≤ length secret
          → (header' : Text) × (build_hmac_header X t payload secret ≡ some header')
            × (now ≤ t + 300000
                → t ≤ now + 300000
                → R.get now (seen_key (sign X secret payload t)) s ≡ none
                → (verify_legacy X secret R now payload header' s).1
                  ≡ inl (sign X secret payload t))
            × (300000 < (now - t) + (t - now)
                → (verify_legacy X secret R now payload header' s).1 ≡ inr expired))
        × (length secret < 32 → build_hmac_header X t payload secret ≡ none)
  unfolding build_hmac_header verify_legacy look_up remember header is_replay_attack matches
  built_header_verifies R t now payload s =
      let checked = check-header now t payload (sign X secret payload t) (sign-IsPlain payload t) in
      (
        λ l. (
          header t (sign X secret payload t),
          ground arith,
          λ a b f.
              rw
                (checked, in_time now t a b, same_codes_refl (X.bytes (sign X secret payload t)), f)
                refl,
          λ o. rw (checked) (ground arith),
        ),
        λ l. ground arith,
      )
