-- ===== src/Security/Signatures.antt =====
-- src/security/hmac/verifier.ts and signer.ts for headers of the form `t=..,s=..`, which
-- buildHmacHeader of header-builder.ts makes: the signature of a time and a payload, and the
-- refusal of replays by a key in Redis, an interface whose calls succeed. HMAC-SHA256, the decoding
-- of hexadecimal digits and the two ways of dates are an interface too. Payloads are texts, and
-- dates are not before 1970. Counters and logs are left out.
pub mod Roundtrip
pub mod Replay
use queue_forge.Redis.{Redis}
use queue_forge.Security.Headers.{split, first_part, trim, IsPlain}
use queue_forge.Base.{
  Bool, List, Option, Text, codes, drop, if◌then◌else◌, inl, inr, is_some, length, ltb, none,
  same_codes, some, ℕ, ◌*◌, ◌++◌, ◌+◌, ◌-◌, ◌≡◌, ◌⊎◌,
}

pub record Crypto : Type 0 where
  pub hmac : Text → Text → Text
  pub bytes : Text → List ℕ
  pub iso : ℕ → Text
  pub parse_date : Text → Option ℕ
  pub hmac-IsPlain : (secret s : Text) → IsPlain (hmac secret s)
  pub iso-IsPlain : (t : ℕ) → IsPlain (iso t)
  pub parse_date-iso : (t : ℕ) → parse_date (iso t) ≡ some t

pub data Refusal : Type 0 where
  no_timestamp expired no_hash mismatch replayed : Refusal

abbrev pub max_age : ℕ
max_age = 300

-- The name in Redis of a signature that was accepted.
pub seen_key : Text → Text
seen_key h = codes "seen_sig:" ++ h

-- `isReplayAttack`.
unfoldable pub is_replay_attack : ℕ → ℕ → Bool
is_replay_attack now t = ltb (max_age * 1000) ((now - t) + (t - now))

pub after : Option Text → Option Text
after none = none
after (some p) = some (drop 2 (trim p))

-- A part of the header by its letter.
unfoldable pub field : Text → Text → Option Text
unfolding after
field start signature = after (first_part start (split 44 signature))

module _ (X : Crypto) (secret : Text) where
  -- `sign` with a payload and a time.
  unfoldable pub sign : Text → ℕ → Text
  sign payload t = X.hmac secret (X.iso t ++ (codes "." ++ payload))

  pub dated : Option Text → Option ℕ
  dated none = none
  dated (some s) = X.parse_date s

  unfoldable pub extract_timestamp : Text → Option ℕ
  unfolding dated
  extract_timestamp signature = dated (field (codes "t=") signature)

  -- `verify` of the signer.
  pub matches : Text → Text → ℕ → Bool
  unfolding sign
  matches payload h t = same_codes (X.bytes h) (X.bytes (sign payload t))

  pub check_hash : Text → ℕ → Option Text → Text ⊎ Refusal
  unfolding matches
  check_hash payload t none = inr no_hash
  check_hash payload t (some h) = if matches payload h t then inl h else inr mismatch

  pub check_time : ℕ → Text → Text → Option ℕ → Text ⊎ Refusal
  unfolding check_hash is_replay_attack
  check_time now payload signature none = inr no_timestamp
  check_time now payload signature (some t) =
      if is_replay_attack now t
      then inr expired
      else check_hash payload t (field (codes "s=") signature)

  -- Up to the await of `exists`: the hash, as the header spells it.
  unfoldable pub check : ℕ → Text → Text → Text ⊎ Refusal
  unfolding check_time
  check now payload signature = check_time now payload signature (extract_timestamp signature)

  module _ (R : Redis) where
    -- `exists`, which is awaited, and then `setex`.
    unfoldable pub look_up : ℕ → Text ⊎ Refusal → R.Store → Text ⊎ Refusal
    unfolding seen_key
    look_up now (inr e) s = inr e
    look_up now (inl h) s = if is_some (R.get now (seen_key h) s) then inr replayed else inl h

    pub remember : ℕ → Text ⊎ Refusal → R.Store → R.Store
    unfolding seen_key
    remember now (inr e) s = s
    remember now (inl h) s = R.set_px now (seen_key h) (codes "processed") (max_age * 1000) s

    -- `verifyLegacy`, where no other call comes between its two commands.
    unfoldable pub verify_legacy : ℕ → Text → Text → R.Store → R.Store × (Text ⊎ Refusal)
    unfolding look_up remember
    verify_legacy now payload signature s =
        let r = look_up now (check now payload signature) s in (remember now r s, r)

-- `buildHmacHeader`; `none` is a ValidationError. The header is signed with the given secret.
pub build_hmac_header : Crypto → ℕ → Text → Text → Option Text
unfolding sign
build_hmac_header X now payload secret =
    if ltb (length secret) 32
    then none
    else some (codes "t=" ++ (X.iso now ++ (codes ",s=" ++ sign X secret payload now)))
