-- ===== src/Security/Tokens.antt =====
-- src/security/auth/token-manager.ts over src/security/auth/jwt-strategy.ts: access and refresh
-- tokens, their revocation and rotation. The library jsonwebtoken is an interface, and so is Redis;
-- a node reaches it by a client of its own or by the wrapper of
-- src/infrastructure/redis/redis-operations.ts, which has no `setex` and whose `set` takes
-- milliseconds. SHA-256 is an argument. The calls of Redis succeed; there is no key builder, and
-- logs are left out.
pub mod Revocation
pub mod Wrapped
pub mod Rotation
use queue_forge.Redis.{Redis}
use queue_forge.Base.{
  Bool, List, Option, Text, [], codes, false, if◌then◌else◌, inl, inr, is_empty, is_some, ltb, max,
  none, or_else, same_codes, some, suc, true, zero, ℕ, ◌*◌, ◌++◌, ◌+◌, ◌-◌, ◌/◌, ◌<◌, ◌||◌, ◌∷◌,
  ◌≡◌, ◌⊎◌,
}

-- What a token says; seconds for `iat` and `exp`.
pub record Claims : Type 0 where
  pub sub : Text
  pub roles : Option (List Text)
  pub type : Option Text
  pub iss : Text
  pub aud : Text
  pub iat : ℕ
  pub exp : Option ℕ

-- `jwt.sign`, `jwt.decode` and `jwt.verify`, which fails on another secret, issuer or audience and
-- from the second of the expiry on.
pub record Jwt : Type 0 where
  pub sign : Text → Claims → Text
  pub decode : Text → Option Claims
  pub verify : ℕ → Text → Text → Text → Text → Option Claims
  pub decode-sign : (secret : Text) (c : Claims) → decode (sign secret c) ≡ some c
  pub verify-sign :
      (now : ℕ) (secret : Text) (c : Claims) (e : ℕ)
      → c.exp ≡ some e
      → now < e
      → verify now secret c.iss c.aud (sign secret c) ≡ some c
  pub decode-verify :
      (now : ℕ) (secret iss aud token : Text) (c : Claims)
      → verify now secret iss aud token ≡ some c
      → decode token ≡ some c
  pub verify-before :
      (now : ℕ) (secret iss aud token : Text) (c : Claims) (e : ℕ)
      → verify now secret iss aud token ≡ some c
      → c.exp ≡ some e
      → now < e

pub data Client : Type 0 where
  direct wrapped : Client

pub record Config : Type 0 where
  pub secret : Text
  pub issuer : Text
  pub audience : Text
  pub default_expiry_ms : ℕ

-- What the token manager hands to `generateToken`: the roles of an access token, or none.
pub record Payload : Type 0 where
  pub sub : Text
  pub roles : Option (List Text)
  pub type : Text

-- Why a token is refused.
pub data Refusal : Type 0 where
  revoked invalid wrong_type : Refusal

-- The type of the tokens and the date `expiresAt` are left out.
pub record Issued : Type 0 where
  pub access_token : Text
  pub refresh_token : Text
  pub expires_in : ℕ

abbrev pub refresh_expiry : ℕ
refresh_expiry = 604800000

-- `expiryMs || this.defaultExpiryMs`.
expiry_of : Config → Option ℕ → ℕ
expiry_of k none = k.default_expiry_ms
expiry_of k (some zero) = k.default_expiry_ms
expiry_of k (some (suc n)) = suc n

-- The payload's fields win over the defaults, of which only the empty list of roles shows.
unfoldable pub claims_of : Config → ℕ → Payload → Option ℕ → Claims
unfolding expiry_of
claims_of k now p expiry = record {
  sub = p.sub;
  roles = some (or_else p.roles []);
  type = some p.type;
  iss = k.issuer;
  aud = k.audience;
  iat = now / 1000;
  exp = some (now / 1000 + expiry_of k expiry / 1000);
}

-- `decoded.exp || nowSec + 3600`.
pub expiry_or_hour : ℕ → Option ℕ → ℕ
expiry_or_hour now none = now / 1000 + 3600
expiry_or_hour now (some zero) = now / 1000 + 3600
expiry_or_hour now (some (suc e)) = suc e

-- `payload.type && payload.type !== 'access'` is an error, and so is any type but `refresh` where
-- that is asked for; no type passes either, and an empty one the first.
pub access_type : Option Text → Bool
access_type none = true
access_type (some t) = is_empty t || same_codes t (codes "access")

pub refresh_type : Option Text → Bool
refresh_type none = true
refresh_type (some t) = same_codes t (codes "refresh")

pub has_hash : Text → List Text → Bool
has_hash h [] = false
has_hash h (k ∷ ks) = same_codes k h || has_hash h ks

-- The keys of Redis that a revoked token is under: by the token for a client of its own, by the
-- hash for the wrapper.
pub token_key : Text → Text
token_key token = codes "revoked_token:" ++ token

pub hash_key : Text → Text
hash_key h = codes "queueforge:token-blacklist:" ++ h

-- `val === 'revoked' || val === '1'`.
unfoldable pub marked : Option Text → Bool
marked none = false
marked (some v) = same_codes v (codes "revoked") || same_codes v (codes "1")

-- `Math.max(1, exp - nowSec)`, in seconds.
unfoldable pub ttl_of : ℕ → Claims → ℕ
unfolding expiry_or_hour
ttl_of now c = max 1 (expiry_or_hour now c.exp - now / 1000)

-- What is left of a check: the type.
pub checked : (Option Text → Bool) → Option Claims → Claims ⊎ Refusal
checked ok none = inr invalid
checked ok (some c) = if ok c.type then inl c else inr wrong_type

-- `payload.roles || payload.scope || ['USER']`; no scope is given out.
pub roles_of : Option (List Text) → List Text
roles_of none = codes "USER" ∷ []
roles_of (some rs) = rs

module _ (J : Jwt) (R : Redis) (hash : Text → Text) (k : Config) where
  -- One process: how it reaches Redis, and the hashes that it revoked itself.
  pub record Node : Type 0 where
    pub client : Client
    pub blacklist : List Text

  pub generate_token : ℕ → Payload → Option ℕ → Text
  generate_token now p expiry = J.sign k.secret (claims_of k now p expiry)

  -- Without an expiry the access token gets the default.
  unfoldable pub generate_access_token : ℕ → Text → Option (List Text) → Option ℕ → Text
  unfolding generate_token
  generate_access_token now sub roles expiry =
      generate_token now (record { sub = sub; roles = roles; type = codes "access" }) expiry

  unfoldable pub generate_refresh_token : ℕ → Text → Text
  unfolding generate_token
  generate_refresh_token now sub =
      generate_token now (record { sub = sub; roles = none; type = codes "refresh" })
        (some refresh_expiry)

  unfoldable pub issue_token : ℕ → Text → List Text → Issued
  unfolding generate_access_token generate_refresh_token
  issue_token now sub roles = record {
    access_token = generate_access_token now sub (some roles) none;
    refresh_token = generate_refresh_token now sub;
    expires_in = 3600;
  }

  -- `exists` on the one key and then `get` on the other; the values under the first are not read.
  pub in_redis : ℕ → Text → R.Store → Bool
  unfolding token_key hash_key
  in_redis now token s =
      is_some (R.get now (token_key token) s) || marked (R.get now (hash_key (hash token)) s)

  unfoldable pub is_token_revoked : ℕ → Node → Text → R.Store → Bool
  unfolding in_redis has_hash
  is_token_revoked now n token s = has_hash (hash token) n.blacklist || in_redis now token s

  -- `verifyToken` refuses the empty text before it asks the library.
  pub verify_jwt : ℕ → Text → Option Claims
  verify_jwt now token =
      if is_empty token then none else J.verify (now / 1000) k.secret k.issuer k.audience token

  pub verify_access_token : ℕ → Node → Text → R.Store → Claims ⊎ Refusal
  unfolding checked verify_jwt access_type
  verify_access_token now n token s =
      if is_token_revoked now n token s
      then inr revoked
      else checked access_type (verify_jwt now token)

  pub verify_refresh_token : ℕ → Node → Text → R.Store → Claims ⊎ Refusal
  unfolding checked verify_jwt refresh_type
  verify_refresh_token now n token s =
      if is_token_revoked now n token s
      then inr revoked
      else checked refresh_type (verify_jwt now token)

  -- The wrapper takes the number of seconds for milliseconds.
  unfoldable pub mark : ℕ → Client → Text → Claims → R.Store → R.Store
  unfolding ttl_of token_key hash_key
  mark now direct token c s =
      R.set_px now (token_key token) (codes "revoked") (ttl_of now c * 1000) s
  mark now wrapped token c s =
      R.set_px now (hash_key (hash token)) (codes "revoked") (ttl_of now c) s

  pub revoke_decoded : ℕ → Node → Text → Option Claims → R.Store → Node × R.Store × Bool
  unfolding mark
  revoke_decoded now n token none s = (n, s, false)
  revoke_decoded now n token (some c) s =
      (record n { blacklist = hash token ∷ n.blacklist }, mark now n.client token c s, true)

  -- The node, Redis, and whether the token could be decoded.
  pub revoke_token : ℕ → Node → Text → R.Store → Node × R.Store × Bool
  unfolding revoke_decoded
  revoke_token now n token s = revoke_decoded now n token (J.decode token) s

  abbrev pub Refreshed : Type 0
  Refreshed = Issued ⊎ Refusal

  -- A revocation that throws lets the error out.
  pub rotated : Node × R.Store × Bool → Issued → Node × R.Store × Refreshed
  rotated (n, s, true) i = (n, s, inl i)
  rotated (n, s, false) i = (n, s, inr invalid)

  -- With more than five minutes left the token itself is handed back.
  pub keep_or_rotate : ℕ → Node → Text → Claims → R.Store → Node × R.Store × Refreshed
  unfolding expiry_or_hour roles_of generate_access_token generate_refresh_token
  keep_or_rotate now n token c s =
      let left = expiry_or_hour now c.exp - now / 1000 in
      if ltb 300 left
      then (n, s, inl (record { access_token = token; refresh_token = token; expires_in = left }))
      else rotated (revoke_token now n token s) (record {
        access_token = generate_access_token now c.sub (some (roles_of c.roles)) none;
        refresh_token = generate_refresh_token now c.sub;
        expires_in = 3600;
      })

  pub refresh_checked : ℕ → Node → Text → Claims ⊎ Refusal → R.Store → Node × R.Store × Refreshed
  unfolding keep_or_rotate
  refresh_checked now n token (inl c) s = keep_or_rotate now n token c s
  refresh_checked now n token (inr e) s = (n, s, inr e)

  pub refresh_token : ℕ → Node → Text → R.Store → Node × R.Store × Refreshed
  unfolding refresh_checked
  refresh_token now n token s = refresh_checked now n token (verify_refresh_token now n token s) s
