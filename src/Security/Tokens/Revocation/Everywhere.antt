-- ===== src/Security/Tokens/Revocation/Everywhere.antt =====
-- Revocation through Redis, by nodes with a client of their own.
use queue_forge.Security.Tokens.Revocation.{
  refresh, revoke, verify_refresh, verify_access, act, Act,
}
use queue_forge.Redis.{Redis}
use queue_forge.Security.Tokens.{
  refresh_type, access_type, in_redis, checked, verify_jwt, wrapped, Client, direct, hash_key,
  ttl_of, token_key, mark, expiry_or_hour, revoked, Refusal, verify_refresh_token, Claims,
  verify_access_token, keep_or_rotate, Issued, refresh_token, is_token_revoked, revoke_token,
  refresh_checked, rotated, revoke_decoded, Node, Config, Jwt,
}
use queue_forge.Base.{
  Bool, Bool-cases, List, Option, Text, [], arith, codes, false, if◌then◌else◌, inl, inr, ltb, none,
  refl, same_codes, same_codes→eq, some, suc, true, zero, ℕ, ◌*◌, ◌-◌, ◌/◌, ◌<◌, ◌∙◌, ◌∷◌, ◌≡◌, ◌≢◌,
  ◌≤◌, ◌⊎◌,
}

module _ (J : Jwt) (R : Redis) (hash : Text → Text) (k : Config) where
  -- What Redis says of a revoked token at a time.
  abbrev Marked : ℕ → Text → R.Store → Type 0
  Marked t token s = R.get t (token_key token) s ≡ some (codes "revoked")

  -- The mark outlives the token.
  mark-Marked :
      (now t : ℕ) (token : Text) (c : Claims) (e : ℕ) (s : R.Store)
      → c.exp ≡ some e
      → now ≤ t
      → t < e * 1000
      → Marked t token (mark J R hash k now direct token c s)
  unfolding mark ttl_of expiry_or_hour
  mark-Marked now t token c zero s h l u = absurd (omega arith)
  mark-Marked now t token c (suc e) s h l u = R.get-set_px now _ t _ _ s l (rw h (omega arith))

  mark-keeps :
      (now t : ℕ) (client : Client) (token other : Text) (c : Claims) (s : R.Store)
      → (client ≡ wrapped) ⊎ (same_codes other token ≡ false)
      → Marked t token s
      → Marked t token (mark J R hash k now client other c s)
  unfolding mark token_key hash_key
  mark-keeps now t direct token other c s (inl h) m = cc
  mark-keeps now t direct token other c s (inr h) m = R.get-set_px_other now _ t _ _ _ s h ∙ m
  mark-keeps now t wrapped token other c s h m = R.get-set_px_other now _ t _ _ _ s refl ∙ m

  mark-stays :
      (now t : ℕ) (client : Client) (token other : Text) (c x : Claims) (e : ℕ) (s : R.Store)
      → J.decode token ≡ some c
      → c.exp ≡ some e
      → J.decode other ≡ some x
      → now ≤ t
      → t < e * 1000
      → Marked t token s
      → Marked t token (mark J R hash k now client other x s)
  mark-stays now t wrapped token other c x e s d h q l u m =
      mark-keeps now t wrapped token other x s (inl refl) m
  mark-stays now t direct token other c x e s d h q l u m =
      elim (Bool-cases (same_codes other token)) [
        | inl y ↦
            let same = same_codes→eq other token y in
            let found : x.exp ≡ some e = cc in rw same (mark-Marked now t token x e s found l u)
        | inr y ↦ mark-keeps now t direct token other x s (inr y) m
      ]

  revoke_decoded-Marked :
      (now t : ℕ) (n : Node J R hash k) (token other : Text) (c : Claims) (e : ℕ)
      (o : Option Claims) (s : R.Store)
      → J.decode token ≡ some c
      → c.exp ≡ some e
      → J.decode other ≡ o
      → now ≤ t
      → t < e * 1000
      → Marked t token s
      → Marked t token (revoke_decoded J R hash k now n other o s).1
  unfolding revoke_decoded
  revoke_decoded-Marked now t n token other c e none s d h q l u m = m
  revoke_decoded-Marked now t n token other c e (some x) s d h q l u m =
      mark-stays now t n.client token other c x e s d h q l u m

  rotated-store :
      (r : Node J R hash k × R.Store × Bool) (i : Issued) → (rotated J R hash k r i).1 ≡ r.1
  unfolding rotated
  rotated-store (n, s, true) i = refl
  rotated-store (n, s, false) i = refl

  keep_or_rotate-Marked :
      (now t : ℕ) (n : Node J R hash k) (token other : Text) (c x : Claims) (e : ℕ) (s : R.Store)
      → J.decode token ≡ some c
      → c.exp ≡ some e
      → now ≤ t
      → t < e * 1000
      → Marked t token s
      → Marked t token (keep_or_rotate J R hash k now n other x s).1
  unfolding keep_or_rotate revoke_token
  keep_or_rotate-Marked now t n token other c x e s d h l u m =
      elim (Bool-cases (ltb 300 (expiry_or_hour now x.exp - now / 1000))) [
        | inl y ↦ rw y m
        | inr y ↦
            rw (y, rotated-store _ _)
              (revoke_decoded-Marked now t n token other c e _ s d h refl l u m)
      ]

  refresh_checked-Marked :
      (now t : ℕ) (n : Node J R hash k) (token other : Text) (c : Claims) (e : ℕ)
      (r : Claims ⊎ Refusal) (s : R.Store)
      → J.decode token ≡ some c
      → c.exp ≡ some e
      → now ≤ t
      → t < e * 1000
      → Marked t token s
      → Marked t token (refresh_checked J R hash k now n other r s).1
  unfolding refresh_checked
  refresh_checked-Marked now t n token other c e (inl x) s d h l u m =
      keep_or_rotate-Marked now t n token other c x e s d h l u m
  refresh_checked-Marked now t n token other c e (inr x) s d h l u m = m

  unfoldable pub time : Act J R hash k → ℕ
  time (verify_access now token) = now
  time (verify_refresh now token) = now
  time (revoke now token) = now
  time (refresh now token) = now

  act-Marked :
      (a : Act J R hash k) (t : ℕ) (n : Node J R hash k) (token : Text) (c : Claims) (e : ℕ)
      (s : R.Store)
      → J.decode token ≡ some c
      → c.exp ≡ some e
      → time a ≤ t
      → t < e * 1000
      → Marked t token s
      → Marked t token (act J R hash k a (n, s)).1
  unfolding act revoke_token refresh_token time
  act-Marked (verify_access now o) t n token c e s d h l u m = m
  act-Marked (verify_refresh now o) t n token c e s d h l u m = m
  act-Marked (revoke now o) t n token c e s d h l u m =
      revoke_decoded-Marked now t n token o c e _ s d h refl l u m
  act-Marked (refresh now o) t n token c e s d h l u m =
      refresh_checked-Marked now t n token o c e _ s d h l u m

  -- Calls on any nodes, over the one Redis.
  pub act_each : List (Node J R hash k × Act J R hash k) → R.Store → R.Store
  act_each [] s = s
  act_each ((n, a) ∷ rest) s = act_each rest (act J R hash k a (n, s)).1

  abbrev pub AllBy : ℕ → List (Node J R hash k × Act J R hash k) → Type 0
  AllBy t [] = Unit {0}
  AllBy t ((n, a) ∷ rest) = (time a ≤ t) × AllBy t rest

  act_each-Marked :
      (calls : List (Node J R hash k × Act J R hash k)) (t : ℕ) (token : Text) (c : Claims) (e : ℕ)
      (s : R.Store)
      → J.decode token ≡ some c
      → c.exp ≡ some e
      → AllBy t calls
      → t < e * 1000
      → Marked t token s
      → Marked t token (act_each calls s)
  unfolding act_each
  act_each-Marked [] t token c e s d h l u m = m
  act_each-Marked ((n, a) ∷ rest) t token c e s d h l u m =
      act_each-Marked rest t token c e _ d h l.1 u (act-Marked a t n token c e s d h l.0 u m)

  checked-inl :
      (ok : Option Text → Bool) (o : Option Claims) (x : Claims) → checked ok o ≡ inl x → o ≡ some x
  unfolding checked
  checked-inl ok none x a = cc
  checked-inl ok (some d) x a = ground arith

  verify_jwt-some :
      (t : ℕ) (token : Text) (x : Claims)
      → verify_jwt J R hash k t token ≡ some x
      → J.verify (t / 1000) k.secret k.issuer k.audience token ≡ some x
  unfolding verify_jwt
  verify_jwt-some t token x a = ground arith

  -- An accepted token has not expired.
  accepted-before :
      (ok : Option Text → Bool) (t : ℕ) (token : Text) (c x : Claims) (e : ℕ)
      → J.decode token ≡ some c
      → c.exp ≡ some e
      → checked ok (verify_jwt J R hash k t token) ≡ inl x
      → t < e * 1000
  accepted-before ok t token c x e d h a =
      let v = verify_jwt-some t token x (checked-inl ok _ x a) in
      let same : x.exp ≡ some e =
        cc (J.decode-verify (t / 1000) k.secret k.issuer k.audience token x v) in
      omega (arith, J.verify-before (t / 1000) k.secret k.issuer k.audience token x e v same)

  Marked-revoked :
      (t : ℕ) (m : Node J R hash k) (token : Text) (s : R.Store)
      → Marked t token s
      → is_token_revoked J R hash k t m token s ≡ true
  unfolding is_token_revoked in_redis
  Marked-revoked t m token s h = rw h (ground arith)

  never-accepted :
      (ok : Option Text → Bool) (t : ℕ) (m : Node J R hash k) (token : Text) (c x : Claims) (e : ℕ)
      (s : R.Store)
      → J.decode token ≡ some c
      → c.exp ≡ some e
      → (t < e * 1000 → Marked t token s)
      → (if is_token_revoked J R hash k t m token s
          then inr revoked
          else checked ok (verify_jwt J R hash k t token))
        ≢ inl x
  never-accepted ok t m token c x e s d h mark a =
      elim (Bool-cases (is_token_revoked J R hash k t m token s)) [
        | inl y ↦ cc (rw y at a)
        | inr y ↦
            let live = accepted-before ok t token c x e d h (rw y at a) in
            cc (Marked-revoked t m token s (mark live))
      ]

  -- A token that was revoked through a client of its own is accepted nowhere again, be it as an
  -- access or as a refresh token: whatever calls any nodes make in between, at times up to the one
  -- of the check. The token names an expiry.
  pub revoked_everywhere :
      (now t : ℕ) (n m : Node J R hash k) (token : Text) (c x : Claims) (e : ℕ)
      (calls : List (Node J R hash k × Act J R hash k)) (s : R.Store)
      → n.client ≡ direct
      → J.decode token ≡ some c
      → c.exp ≡ some e
      → now ≤ t
      → AllBy t calls
      → let later = act_each calls (revoke_token J R hash k now n token s).1 in
        (verify_access_token J R hash k t m token later ≢ inl x)
        × (verify_refresh_token J R hash k t m token later ≢ inl x)
  unfolding revoke_token verify_access_token verify_refresh_token
  revoked_everywhere now t n m token c x e calls s w d h l by =
      let here : (t < e * 1000
          → Marked t token
              (act_each calls (revoke_decoded J R hash k now n token (J.decode token) s).1)) =
        λ u.
          act_each-Marked calls t token c e _ d h by u
            (rw (d, revoke_decoded, w) (mark-Marked now t token c e s h l u)) in
      (
        never-accepted access_type t m token c x e _ d h here,
        never-accepted refresh_type t m token c x e _ d h here,
      )
