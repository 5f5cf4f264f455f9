-- ===== src/Security/Tokens/Revocation.antt =====
-- How far a revocation reaches.
pub mod Everywhere
use queue_forge.Redis.{Redis}
use queue_forge.Security.Tokens.{
  mark, expiry_or_hour, revoked, Refusal, verify_refresh_token, Claims, verify_access_token,
  keep_or_rotate, Issued, has_hash, refresh_token, is_token_revoked, revoke_token, refresh_checked,
  rotated, revoke_decoded, Node, Config, Jwt,
}
use queue_forge.Base.{
  Bool, Bool-cases, List, Option, Text, [], arith, false, inl, inr, ltb, none, refl,
  same_codes_refl, some, true, ℕ, ◌-◌, ◌/◌, ◌∷◌, ◌≡◌, ◌⊎◌,
}

module _ (J : Jwt) (R : Redis) (hash : Text → Text) (k : Config) where
  -- A call on a node, at a time.
  pub data Act : Type 0 where
    verify_access verify_refresh revoke refresh : ℕ → Text → Act

  pub act : Act → Node J R hash k × R.Store → Node J R hash k × R.Store
  act (verify_access now token) w = w
  act (verify_refresh now token) w = w
  act (revoke now token) (n, s) =
      let (n', s', ok) = revoke_token J R hash k now n token s in (n', s')
  act (refresh now token) (n, s) =
      let (n', s', r) = refresh_token J R hash k now n token s in (n', s')

  pub act_all : List Act → Node J R hash k × R.Store → Node J R hash k × R.Store
  act_all [] w = w
  act_all (a ∷ rest) w = act_all rest (act a w)

  abbrev Blocks : Text → Node J R hash k → Type 0
  Blocks token n = has_hash (hash token) n.blacklist ≡ true

  revoke_decoded-Blocks :
      (now : ℕ) (n : Node J R hash k) (token other : Text) (o : Option Claims) (s : R.Store)
      → Blocks token n
      → Blocks token (revoke_decoded J R hash k now n other o s).0
  unfolding revoke_decoded has_hash
  revoke_decoded-Blocks now n token other none s b = b
  revoke_decoded-Blocks now n token other (some c) s b = rw b (ground arith)

  rotated-node :
      (r : Node J R hash k × R.Store × Bool) (i : Issued) → (rotated J R hash k r i).0 ≡ r.0
  unfolding rotated
  rotated-node (n, s, true) i = refl
  rotated-node (n, s, false) i = refl

  keep_or_rotate-Blocks :
      (now : ℕ) (n : Node J R hash k) (token other : Text) (c : Claims) (s : R.Store)
      → Blocks token n
      → Blocks token (keep_or_rotate J R hash k now n other c s).0
  unfolding keep_or_rotate revoke_token
  keep_or_rotate-Blocks now n token other c s b =
      elim (Bool-cases (ltb 300 (expiry_or_hour now c.exp - now / 1000))) [
        | inl h ↦ rw h b
        | inr h ↦
            rw (h, rotated-node _ _) (revoke_decoded-Blocks now n token other (J.decode other) s b)
      ]

  refresh_checked-Blocks :
      (now : ℕ) (n : Node J R hash k) (token other : Text) (r : Claims ⊎ Refusal) (s : R.Store)
      → Blocks token n
      → Blocks token (refresh_checked J R hash k now n other r s).0
  unfolding refresh_checked
  refresh_checked-Blocks now n token other (inr e) s b = b
  refresh_checked-Blocks now n token other (inl c) s b =
      keep_or_rotate-Blocks now n token other c s b

  act-Blocks :
      (a : Act) (token : Text) (n : Node J R hash k) (s : R.Store)
      → Blocks token n
      → Blocks token (act a (n, s)).0
  unfolding act revoke_token refresh_token
  act-Blocks (verify_access now t) token n s b = b
  act-Blocks (verify_refresh now t) token n s b = b
  act-Blocks (revoke now t) token n s b = revoke_decoded-Blocks now n token t (J.decode t) s b
  act-Blocks (refresh now t) token n s b = refresh_checked-Blocks now n token t _ s b

  act_all-Blocks :
      (acts : List Act) (token : Text) (n : Node J R hash k) (s : R.Store)
      → Blocks token n
      → Blocks token (act_all acts (n, s)).0
  unfolding act_all
  act_all-Blocks [] token n s b = b
  act_all-Blocks (a ∷ rest) token n s b =
      act_all-Blocks rest token (act a (n, s)).0 (act a (n, s)).1 (act-Blocks a token n s b)

  blocked-revoked :
      (t : ℕ) (n : Node J R hash k) (token : Text) (s : R.Store)
      → Blocks token n
      → is_token_revoked J R hash k t n token s ≡ true
  unfolding is_token_revoked
  blocked-revoked t n token s b = rw b refl

  -- A node that revoked a token refuses it as an access token and as a refresh token from then on,
  -- at any time, after any calls on it, and whatever Redis says, as long as the token could be
  -- decoded.
  pub revoked_here :
      (now t : ℕ) (n : Node J R hash k) (token : Text) (c : Claims) (acts : List Act)
      (s later : R.Store)
      → J.decode token ≡ some c
      → let (n', s', ok) = revoke_token J R hash k now n token s in
        let m = (act_all acts (n', s')).0 in
        (ok ≡ true)
        × (verify_access_token J R hash k t m token later ≡ inr revoked)
        × (verify_refresh_token J R hash k t m token later ≡ inr revoked)
  unfolding revoke_token verify_access_token verify_refresh_token revoke_decoded has_hash
  revoked_here now t n token c acts s later e =
      let n' : Node J R hash k = record n { blacklist = hash token ∷ n.blacklist } in
      let b =
        blocked-revoked t (act_all acts (n', mark J R hash k now n.client token c s)).0 token later
          (act_all-Blocks acts token n' (mark J R hash k now n.client token c s)
            (rw (same_codes_refl (hash token)) refl)) in
      rw (e, revoke_decoded, b) (refl, refl, refl)
