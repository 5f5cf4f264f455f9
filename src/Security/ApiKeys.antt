-- ===== src/Security/ApiKeys.antt =====
-- src/security/auth/api-key-strategy.ts: the validation and revocation of API keys. SHA-256 and
-- HMAC-SHA256 are arguments; so are what the repository finds, the configured keys, the secret of
-- the environment and the one of the secrets manager. The cache is an interface with `get` and
-- `set`; the times of a context, the truncated hashes that stand in for ids, and logs are left out.
pub mod Revoked
use queue_forge.Security.Headers.{trim}
use queue_forge.Base.{
  Bool, List, Option, Text, [], codes, drop, false, if◌then◌else◌, inl, inr, is_empty, is_prefix,
  leb, none, not, or_else, or_text, same_codes, some, suc, true, zero, ℕ, ◌&&◌, ◌++◌, ◌+◌, ◌-◌,
  ◌==◌, ◌||◌, ◌∷◌, ◌≡◌, ◌⊎◌,
}

-- What JSON.parse makes of a cached text; only whether there is a time of revocation is read.
pub record Cached : Type 0 where
  pub name : Option Text
  pub roles : Option (List Text)
  pub permissions : Option (List Text)
  pub scopes : Option (List Text)
  pub enabled : Option Bool
  pub is_revoked : Bool

-- The keys of the cache are hashes; `some none` is a text that does not parse.
pub record KeyCache : Type 1 where
  pub Store : Type 0
  pub get : Text → Store → Option (Option Cached)
  pub set : Text → Cached → Store → Store
  pub get-set : (h : Text) (c : Cached) (s : Store) → get h (set h c s) ≡ some (some c)
  pub get-set_other :
      (h g : Text) (c : Cached) (s : Store) → same_codes h g ≡ false → get g (set h c s) ≡ get g s

pub record KeyRecord : Type 0 where
  pub key : Option Text
  pub name : Option Text
  pub roles : Option (List Text)
  pub permissions : Option (List Text)
  pub scopes : Option (List Text)
  pub enabled : Option Bool
  pub is_revoked : Bool
  pub secret : Option Text

pub record Context : Type 0 where
  pub key : Text
  pub name : Text
  pub roles : List Text
  pub permissions : List Text
  pub scopes : List Text
  pub enabled : Bool

pub data KeyError : Type 0 where
  missing bad_format revoked not_found disabled bad_signature : KeyError

pub is_hex : ℕ → Bool
is_hex c = (leb b'a' c && leb c b'f') || ((leb b'A' c && leb c b'F') || (leb b'0' c && leb c b'9'))

-- What follows so many hexadecimal digits.
pub after_hex : ℕ → Text → Option Text
unfolding is_hex
after_hex zero s = some s
after_hex (suc n) [] = none
after_hex (suc n) (c ∷ s) = if is_hex c then after_hex n s else none

-- What follows an underscore.
pub after_bar : Option Text → Option Text
after_bar none = none
after_bar (some []) = none
after_bar (some (c ∷ s)) = if c == b'_' then some s else none

pub ended : Option Text → Bool
ended none = false
ended (some rest) = is_empty rest

pub hex_end : Option Text → Bool
unfolding after_hex ended
hex_end none = false
hex_end (some s) = ended (after_hex 16 s)

-- `/^qf_[a-fA-F0-9]{16}_[a-fA-F0-9]{16}$/`.
unfoldable pub is_key : Text → Bool
unfolding after_hex after_bar hex_end
is_key s = is_prefix (codes "qf_") s && hex_end (after_bar (after_hex 16 (drop 3 s)))

unfoldable pub has_text : Text → List Text → Bool
has_text s [] = false
has_text s (t ∷ ts) = same_codes t s || has_text s ts

abbrev service : List Text
service = codes "SERVICE" ∷ []

abbrev read_write : List Text
read_write = codes "READ" ∷ codes "WRITE" ∷ []

-- A cached key.
of_cache : Text → Cached → Context
of_cache key c = record {
  key = key;
  name = or_text c.name (codes "Test Client");
  roles = or_else c.roles service;
  permissions = or_else c.permissions read_write;
  scopes = or_else c.scopes (codes "ingest" ∷ []);
  enabled = or_else c.enabled true;
}

-- The record that stands in for one that is not found.
default_record : Text → Text → KeyRecord
default_record env key = record {
  key = some key;
  name = some (codes "Default Service Key");
  roles = some service;
  permissions = some read_write;
  scopes = some (codes "ingest" ∷ codes "read" ∷ codes "write" ∷ []);
  enabled = some true;
  is_revoked = false;
  secret = some env;
}

of_record : Text → KeyRecord → Context
of_record key r = record {
  key = or_text r.key key;
  name = or_text r.name (codes "API Key User");
  roles = or_else r.roles service;
  permissions = or_else r.permissions read_write;
  scopes =
      or_else r.scopes (or_else r.permissions (codes "ingest" ∷ codes "read" ∷ codes "write" ∷ []));
  enabled = or_else r.enabled true;
}

-- What the strategy is set up with.
pub record Setup : Type 0 where
  pub hash : Text → Text
  pub hmac : Text → Text → Text
  pub configured : List Text
  pub env_secret : Text
  pub stored_secret : Option Text

-- A signature with the time that it signs, where the call has both and neither is empty.
abbrev pub Signed : Type 0
Signed = Option (Text × Text)

verify_signature : Setup → Text → Text → Text → Text → Bool
verify_signature u key secret text signature =
    same_codes (u.hmac secret (key ++ (codes ":" ++ text))) signature

signed_well : Setup → Text → KeyRecord → Signed → Bool
unfolding verify_signature
signed_well u key r none = true
signed_well u key r (some (signature, time)) =
    verify_signature u key (or_text r.secret (or_text u.stored_secret (codes "default-secret")))
      time signature

-- From the record on.
accept : Setup → Text → KeyRecord → Signed → Context ⊎ KeyError
unfolding signed_well of_record
accept u key r signed =
    if not (or_else r.enabled true) || r.is_revoked
    then inr disabled
    else if signed_well u key r signed
    then inl (of_record key r)
    else inr bad_signature

pub look_up : Setup → Text → Option KeyRecord → Signed → Context ⊎ KeyError
unfolding accept default_record has_text
look_up u key (some r) signed = accept u key r signed
look_up u key none signed =
    if has_text key u.configured || is_prefix (codes "qf_") key
    then accept u key (default_record u.env_secret key) signed
    else inr not_found

pub from_cache :
    Setup → Text → Option (Option Cached) → Option KeyRecord → Signed → Context ⊎ KeyError
unfolding look_up of_cache
from_cache u key none found signed = look_up u key found signed
from_cache u key (some none) found signed = look_up u key found signed
from_cache u key (some (some c)) found signed =
    if c.is_revoked then inr revoked else inl (of_cache key c)

module _ (C : KeyCache) (u : Setup) where
  -- `validateApiKey`: the hashes that this process revoked, the cache and what the repository finds.
  pub validate_api_key : List Text → C.Store → Option KeyRecord → Text → Signed → Context ⊎ KeyError
  unfolding from_cache has_text is_key
  validate_api_key gone s found key signed =
      if is_empty key
      then inr missing
      else if not (is_key (trim key))
      then inr bad_format
      else if has_text (u.hash key) gone
      then inr revoked
      else from_cache u key (C.get (u.hash key) s) found signed

  pub revoke_api_key : List Text → C.Store → Text → List Text × C.Store
  revoke_api_key gone s h = (
    h ∷ gone,
    C.set h
        (record {
          name = none;
          roles = none;
          permissions = none;
          scopes = none;
          enabled = none;
          is_revoked = true;
        })
        s,
  )
