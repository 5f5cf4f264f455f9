-- ===== src/Examples/Secrets.antt =====
-- Tokens, signatures and API keys.

use queue_forge.Base.Maps.{put, find}
use queue_forge.Redis.Memory.{live, memory, read}
use queue_forge.Examples.Doubles.Hashes.{
  upper-letters-IsPlain, far_iso, far_parse, letters, plain_crypto, key_cache,
}
use queue_forge.Examples.Doubles.Tokens.{decode_plain, sign_plain, if_in_time, plain_tokens}
use queue_forge.Security.Headers.{first_part, split, trim}
use queue_forge.Security.Tokens.{
  marked, ttl_of, is_token_revoked, Claims, direct, wrapped, Config, revoked, Issued, Node,
  generate_access_token, generate_refresh_token, issue_token, revoke_token, refresh_token,
  verify_access_token, verify_refresh_token, claims_of,
}
use queue_forge.Security.Tokens.Revocation.{Act, verify_access, refresh, revoke}
use queue_forge.Security.Tokens.Revocation.Everywhere.{time, act_each, revoked_everywhere}
use queue_forge.Security.Tokens.Wrapped.{revoked_wrapped}
use queue_forge.Security.Tokens.Rotation.{rotation_drops_roles}
use queue_forge.Security.Signatures.{
  look_up, remember, expired, check, extract_timestamp, field, is_replay_attack, verify_legacy,
  build_hmac_header, sign, seen_key,
}
use queue_forge.Security.Signatures.Roundtrip.{sign-IsPlain, header, built_header_verifies}
use queue_forge.Security.Signatures.Replay.{
  after_all, Event, whole, remembers, AllBetween, time_of, replay_refused, respelled_replayed,
}
use queue_forge.Security.ApiKeys.{
  has_text, is_key, Setup, Context, revoke_api_key, validate_api_key,
}
use queue_forge.Security.ApiKeys.Revoked.{revoke_api_key_lem}
use queue_forge.Base.{
  List, Text, [], arith, codes, inl, inr, length, none, refl, some, true, upper, ◌++◌, ◌+◌, ◌-◌,
  ◌<◌, ◌∷◌, ◌≡◌, ◌≢◌, ◌≤◌,
}

abbrev same : Text → Text
same s = s

abbrev config : Config
config = record {
  secret = codes "abc";
  issuer = codes "QueueForge";
  audience = codes "api";
  default_expiry_ms = 3600000;
}

abbrev Here : Type 0
Here = Node plain_tokens memory same config

abbrev own : Here
own = record { client = direct; blacklist = [] }

abbrev through : Here
through = record { client = wrapped; blacklist = [] }

abbrev claims : Claims
claims = record {
  sub = codes "u1";
  roles = some (codes "USER" ∷ []);
  type = some (codes "access");
  iss = codes "QueueForge";
  aud = codes "api";
  iat = 5;
  exp = some 3605;
}

abbrev token : Text
token =
    generate_access_token plain_tokens memory same config 5000 (codes "u1")
      (some (codes "USER" ∷ [])) none

abbrev calls : List (Here × Act plain_tokens memory same config)
calls =
    (own, verify_access 6000 token)
    ∷ (through, revoke 7000 (codes "x"))
    ∷ (own, refresh 8000 token)
    ∷ []

revoked_everywhere_example :
    let later =
      act_each plain_tokens memory same config calls
        (revoke_token plain_tokens memory same config 5000 own token []).1 in
    (verify_access_token plain_tokens memory same config 9000 own token later ≢ inl claims)
    × (verify_refresh_token plain_tokens memory same config 9000 own token later ≢ inl claims)
unfolding is_token_revoked decode_plain sign_plain generate_access_token generate_refresh_token
    issue_token if_in_time read find marked ttl_of claims_of time
revoked_everywhere_example =
    revoked_everywhere plain_tokens memory same config 5000 9000 own own token claims claims 3605
      calls [] refl refl refl (omega arith) (omega arith, (omega arith, (omega arith, tt)))

revoked_wrapped_example :
    let later = (revoke_token plain_tokens memory same config 5000 through token []).1 in
    (5000 ≤ 9000
      → 9000 < 5000 + 3600
      → verify_access_token plain_tokens memory same config 9000 own token later ≡ inr revoked)
    × (5000 + 3600 < 9000
        → verify_access_token plain_tokens memory same config 9000 own token later ≡ inl claims)
unfolding is_token_revoked decode_plain sign_plain generate_access_token generate_refresh_token
    issue_token if_in_time read find marked ttl_of claims_of
revoked_wrapped_example =
    revoked_wrapped plain_tokens memory same config 5000 9000 through own token claims claims []
      refl refl refl refl refl refl refl

rotation_drops_roles_example :
    let old =
      (issue_token plain_tokens memory same config 5000
        (codes "u1")
        (codes "ADMIN" ∷ [])).refresh_token in
    let (n, s, r) = refresh_token plain_tokens memory same config 604600000 own old [] in
    (i : Issued) × (c : Claims) × (r ≡ inl i)
    × (plain_tokens.decode i.access_token ≡ some c)
    × (c.sub ≡ codes "u1")
    × (c.roles ≡ some [])
    × (verify_refresh_token plain_tokens memory same config 604600001 n old [] ≡ inr revoked)
unfolding is_token_revoked decode_plain sign_plain generate_access_token generate_refresh_token
    issue_token if_in_time read find marked ttl_of claims_of
rotation_drops_roles_example =
    rotation_drops_roles plain_tokens memory same config 5000 604600000 604600001 own (codes "u1")
      (codes "ADMIN" ∷ []) [] [] refl refl (omega arith) (omega arith)

abbrev secret : Text
secret = codes "0123456789abcdef0123456789abcdef"

abbrev payload : Text
payload = codes "{}"

built_header_verifies_example :
    (32 ≤ length secret
      → (h : Text) × (build_hmac_header plain_crypto 5000 payload secret ≡ some h)
        × (6000 ≤ 5000 + 300000
            → 5000 ≤ 6000 + 300000
            → memory.get 6000 (seen_key (sign plain_crypto secret payload 5000)) [] ≡ none
            → (verify_legacy plain_crypto secret memory 6000 payload h []).1
              ≡ inl (sign plain_crypto secret payload 5000))
        × (300000 < (6000 - 5000) + (5000 - 6000)
            → (verify_legacy plain_crypto secret memory 6000 payload h []).1 ≡ inr expired))
    × (length secret < 32 → build_hmac_header plain_crypto 5000 payload secret ≡ none)
built_header_verifies_example =
    built_header_verifies plain_crypto secret memory 5000 6000 payload []

abbrev hash : Text
hash = sign plain_crypto secret payload 5000

abbrev events : List (Event plain_crypto secret memory)
events = whole 7000 (codes "x") (codes "t=1,s=2") ∷ remembers 7500 hash ∷ []

replay_refused_example :
    let signature = header plain_crypto secret 5000 hash in
    let stored =
      remember plain_crypto secret memory 6500
        (look_up plain_crypto secret memory 6000
          (check plain_crypto secret 6000 payload signature)
          [])
        [] in
    (verify_legacy plain_crypto secret memory 8000
      (codes "other")
      signature
      (after_all plain_crypto secret memory events stored)).1
    ≢ inl hash
unfolding verify_legacy check extract_timestamp field first_part split trim header sign far_iso
    far_parse letters read is_replay_attack find put live look_up AllBetween time_of
replay_refused_example =
    replay_refused plain_crypto secret memory 6000 5000 6500 8000 payload (codes "other") hash hash
      events [] [] (sign-IsPlain plain_crypto secret payload 5000) (omega arith) refl (omega arith)
      (omega arith) ((omega arith, omega arith), ((omega arith, omega arith), tt))

respelled_replayed_example :
    (verify_legacy plain_crypto secret memory 7000 payload
      (header plain_crypto secret 5000 (upper hash))
      (verify_legacy plain_crypto secret memory 6000 payload
        (header plain_crypto secret 5000 hash)
        []).0).1
    ≡ inl (upper hash)
unfolding verify_legacy check extract_timestamp field first_part split trim header sign far_iso
    far_parse letters read is_replay_attack find put live
respelled_replayed_example =
    respelled_replayed plain_crypto secret memory 6000 5000 7000 payload hash (upper hash) []
      (sign-IsPlain plain_crypto secret payload 5000)
      (upper-letters-IsPlain (secret ++ (far_iso 5000 ++ (codes "." ++ payload)))) refl refl refl
      (omega arith) (omega arith) refl

abbrev setup : Setup
setup = record {
  hash = same;
  hmac = λ k s. k ++ s;
  configured = [];
  env_secret = codes "s";
  stored_secret = none;
}

abbrev key : Text
key = codes "qf_0123456789abcdef_0123456789ABCDEF"

revoke_api_key_lem_example :
    let (gone, s) = revoke_api_key key_cache setup [] [] key in
    ((context : Context) → validate_api_key key_cache setup gone [] none key none ≢ inl context)
    × ((context : Context) → validate_api_key key_cache setup [] s none key none ≢ inl context)
    × (validate_api_key key_cache setup gone s none (key ++ 32 ∷ []) none
        ≡ inl (record {
          key = key ++ 32 ∷ [];
          name = codes "Default Service Key";
          roles = codes "SERVICE" ∷ [];
          permissions = codes "READ" ∷ codes "WRITE" ∷ [];
          scopes = codes "ingest" ∷ codes "read" ∷ codes "write" ∷ [];
          enabled = true;
        }))
unfolding has_text is_key trim find
revoke_api_key_lem_example =
    revoke_api_key_lem key_cache setup [] [] [] [] none none key refl refl refl refl
