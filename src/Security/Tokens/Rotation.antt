-- ===== src/Security/Tokens/Rotation.antt =====
-- How a refresh token is handed in.
use queue_forge.Redis.{Redis}
use queue_forge.Security.Tokens.{
  refresh_expiry, has_hash, claims_of, roles_of, generate_token, mark, generate_access_token,
  rotated, generate_refresh_token, revoke_decoded, access_type, refresh_type, checked, revoke_token,
  verify_jwt, keep_or_rotate, refresh_checked, expiry_or_hour, revoked, wrong_type, Issued,
  verify_access_token, is_token_revoked, issue_token, Claims, Node, verify_refresh_token,
  refresh_token, Config, Jwt,
}
use queue_forge.Base.{
  List, Text, [], arith, codes, false, inl, inr, is_empty, ltb, none, refl, same_codes_refl, some,
  suc, true, zero, ℕ, ◌+◌, ◌-◌, ◌/◌, ◌<◌, ◌∙◌, ◌∷◌, ◌≡◌, ◌≤◌,
}

module _ (J : Jwt) (R : Redis) (hash : Text → Text) (k : Config) where
  expiry_given : (now e : ℕ) → 0 < e → expiry_or_hour now (some e) ≡ e
  unfolding expiry_or_hour
  expiry_given now zero h = elim h [ ]
  expiry_given now (suc e) h = refl

  refresh-verified :
      (now : ℕ) (n : Node J R hash k) (token : Text) (c : Claims) (s : R.Store)
      → is_token_revoked J R hash k now n token s ≡ false
      → is_empty token ≡ false
      → J.verify (now / 1000) k.secret k.issuer k.audience token ≡ some c
      → c.type ≡ some (codes "refresh")
      → refresh_token J R hash k now n token s ≡ keep_or_rotate J R hash k now n token c s
  unfolding refresh_token verify_refresh_token refresh_checked verify_jwt
  refresh-verified now n token c s b f v y = rw (b, f, v) (rw (checked, y, refresh_type) refl)

  -- A refresh token with more than five minutes left is handed back in the place of the access
  -- token, nothing else changes, and it is refused as an access token.
  pub refresh_kept :
      (now : ℕ) (n : Node J R hash k) (token : Text) (c : Claims) (e : ℕ) (s : R.Store)
      → is_token_revoked J R hash k now n token s ≡ false
      → is_empty token ≡ false
      → J.verify (now / 1000) k.secret k.issuer k.audience token ≡ some c
      → c.type ≡ some (codes "refresh")
      → c.exp ≡ some e
      → now / 1000 + 300 < e
      → let (n', s', r) = refresh_token J R hash k now n token s in
        (r
          ≡ inl
              (record { access_token = token; refresh_token = token; expires_in = e - now / 1000 }))
        × (n' ≡ n)
        × (s' ≡ s)
        × (verify_access_token J R hash k now n' token s' ≡ inr wrong_type)
  unfolding keep_or_rotate verify_access_token verify_jwt
  refresh_kept now n token c e s b f v y h u =
      let left : ltb 300 (e - now / 1000) ≡ true = ground arith in
      rw (refresh-verified now n token c s b f v y, h, expiry_given now e (omega arith), left)
        (refl, refl, refl, rw (b, f, v) (rw (checked, y, access_type) refl))

  rotated-issued :
      (now : ℕ) (n : Node J R hash k) (token : Text) (c : Claims) (e : ℕ) (s : R.Store)
      → J.decode token ≡ some c
      → c.exp ≡ some e
      → 0 < e
      → e ≤ now / 1000 + 300
      → keep_or_rotate J R hash k now n token c s ≡ (
        record n { blacklist = hash token ∷ n.blacklist },
        mark J R hash k now n.client token c s,
        inl (record {
          access_token = generate_access_token J R hash k now c.sub (some (roles_of c.roles)) none;
          refresh_token = generate_refresh_token J R hash k now c.sub;
          expires_in = 3600;
        }),
      )
  unfolding keep_or_rotate revoke_token revoke_decoded rotated
  rotated-issued now n token c e s d h z l =
      let left : ltb 300 (expiry_or_hour now c.exp - now / 1000) ≡ false =
        rw (h, expiry_given now e z) (ground arith) in
      rw (left, d) refl

  -- A user's roles do not survive the rotation of the refresh token: from the last five minutes of
  -- the refresh token that was issued with them on, where it is not revoked, it is exchanged for
  -- an access token of the same user with no roles, and the old token is refused at the node.
  pub rotation_drops_roles :
      (start now t : ℕ) (n : Node J R hash k) (sub : Text) (roles : List Text) (s later : R.Store)
      → let old = (issue_token J R hash k start sub roles).refresh_token in
        is_token_revoked J R hash k now n old s ≡ false
        → is_empty old ≡ false
        → start / 1000 + 604500 ≤ now / 1000
        → now / 1000 < start / 1000 + 604800
        → let (n', s', r) = refresh_token J R hash k now n old s in
          (i : Issued) × (c : Claims) × (r ≡ inl i)
          × (J.decode i.access_token ≡ some c)
          × (c.sub ≡ sub)
          × (c.roles ≡ some [])
          × (verify_refresh_token J R hash k t n' old later ≡ inr revoked)
  unfolding issue_token generate_refresh_token generate_access_token generate_token claims_of
      verify_refresh_token roles_of is_token_revoked has_hash
  rotation_drops_roles start now t n sub roles s later b f l u =
      let c =
        claims_of k start (record { sub = sub; roles = none; type = codes "refresh" })
          (some refresh_expiry) in
      let old = J.sign k.secret c in
      let done =
        refresh-verified now n old c s b f
          (J.verify-sign (now / 1000) k.secret c _ refl (omega arith)) refl
        ∙ rotated-issued now n old c _ s (J.decode-sign k.secret c) refl (omega arith)
            (omega arith) in
      rw (done, same_codes_refl (hash old)) (_, _, refl, J.decode-sign k.secret _, refl, refl, refl)
