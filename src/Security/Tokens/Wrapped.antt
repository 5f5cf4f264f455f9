-- ===== src/Security/Tokens/Wrapped.antt =====
-- Revocation through the wrapper of Redis.
use queue_forge.Redis.{Redis}
use queue_forge.Security.Tokens.{
  marked, access_type, revoked, ttl_of, has_hash, wrapped, Claims, Node, checked, verify_jwt,
  hash_key, token_key, in_redis, is_token_revoked, mark, revoke_decoded, verify_access_token,
  revoke_token, Config, Jwt,
}
use queue_forge.Base.{
  Text, codes, false, inl, inr, is_empty, none, refl, some, ℕ, ◌+◌, ◌/◌, ◌<◌, ◌≡◌, ◌≤◌,
}

module _ (J : Jwt) (R : Redis) (hash : Text → Text) (k : Config) where
  -- A token revoked through the wrapper, at another node that did not revoke it itself: it is
  -- refused for as many milliseconds as it had seconds left, at least one, and accepted after them
  -- for as long as the library verifies it. The token is one of type `access`, and its other key in
  -- Redis is not set.
  pub revoked_wrapped :
      (now t : ℕ) (n m : Node J R hash k) (token : Text) (c x : Claims) (s : R.Store)
      → n.client ≡ wrapped
      → J.decode token ≡ some c
      → has_hash (hash token) m.blacklist ≡ false
      → R.get t (token_key token) s ≡ none
      → is_empty token ≡ false
      → J.verify (t / 1000) k.secret k.issuer k.audience token ≡ some x
      → x.type ≡ some (codes "access")
      → let later = (revoke_token J R hash k now n token s).1 in
        (now ≤ t
          → t < now + ttl_of now c
          → verify_access_token J R hash k t m token later ≡ inr revoked)
        × (now + ttl_of now c < t → verify_access_token J R hash k t m token later ≡ inl x)
  unfolding revoke_token verify_access_token revoke_decoded mark is_token_revoked in_redis token_key
      hash_key verify_jwt checked marked
  revoked_wrapped now t n m token c x s w d b f f' v y =
      let other =
        R.get-set_px_other now (ttl_of now c) t (hash_key (hash token)) (token_key token)
          (codes "revoked") s refl in
      (
        λ l u.
            rw (d, revoke_decoded, w, mark, b, other, f)
              (rw
                (R.get-set_px now (ttl_of now c) t (hash_key (hash token)) (codes "revoked") s l u)
                refl),
        λ u.
            rw (d, revoke_decoded, w, mark, b, other, f)
              (rw
                (R.get-set_px_late now (ttl_of now c) t (hash_key (hash token)) (codes "revoked") s
                  u)
                (rw (f', v, checked, y, access_type) refl)),
      )
