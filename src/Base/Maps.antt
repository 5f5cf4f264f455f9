-- ===== src/Base/Maps.antt =====
-- JavaScript's Map with texts as keys: an association list in the order of insertion.
use queue_forge.Base.{
  inr, inl, Bool-cases, false, List, Option, Text, [], arith, if◌then◌else◌, none, refl, same_codes,
  same_codes_refl, same_codes→eq, some, ◌∷◌, ◌≡◌,
}

pub flip : (j k : Text) → same_codes j k ≡ false → same_codes k j ≡ false
flip j k h = ground (arith, same_codes→eq k j, same_codes_refl k)

module _ {ℓ} {V : Type ℓ} where
  unfoldable pub find : Text → List (Text × V) → Option V
  find id [] = none
  find id ((k, v) ∷ m) = if same_codes k id then some v else find id m

  -- A known key keeps its place.
  unfoldable pub put : Text → V → List (Text × V) → List (Text × V)
  put id v [] = (id, v) ∷ []
  put id v ((k, w) ∷ m) = if same_codes k id then (k, v) ∷ m else (k, w) ∷ put id v m

  unfoldable pub remove : Text → List (Text × V) → List (Text × V)
  remove id [] = []
  remove id ((k, w) ∷ m) = let rest = remove id m in if same_codes k id then rest else (k, w) ∷ rest

  pub find-put :
      (k id : Text) (v : V) (m : List (Text × V))
      → find k (put id v m) ≡ (if same_codes id k then some v else find k m)
  unfolding find put
  find-put k id v [] = refl
  find-put k id v ((j, w) ∷ m) = ground (
    arith,
    same_codes→eq j id,
    same_codes→eq id k,
    same_codes→eq j k,
    same_codes_refl j,
    same_codes_refl k,
    find-put k id v m,
  )

  pub find-remove :
      (k id : Text) (m : List (Text × V))
      → find k (remove id m) ≡ (if same_codes id k then none else find k m)
  unfolding find remove
  find-remove k id [] = ground arith
  find-remove k id ((j, w) ∷ m) = ground (
    arith,
    same_codes→eq j id,
    same_codes→eq id k,
    same_codes→eq j k,
    same_codes_refl j,
    same_codes_refl k,
    find-remove k id m,
  )

  -- No key stands twice.
  unfoldable pub Apart : List (Text × V) → Type ℓ
  Apart [] = Unit {ℓ}
  Apart ((k, v) ∷ m) = (find k m ≡ none) × Apart m

  pub put-Apart : (k : Text) (v : V) (m : List (Text × V)) → Apart m → Apart (put k v m)
  unfolding Apart put find
  put-Apart k v [] a = (refl, tt)
  put-Apart k v ((j, w) ∷ m) a = elim (Bool-cases (same_codes j k)) [
    | inl y ↦ rw y a
    | inr y ↦ rw y (rw (find-put j k v m, flip j k y) a.0, put-Apart k v m a.1)
  ]
