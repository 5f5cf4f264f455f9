-- ===== src/Examples/Doubles/Tokens.antt =====
-- A library of tokens: a token is its claims, packed.

use mathlib.Core.Option.{some_inj}
use queue_forge.Security.Tokens.{Claims, Jwt}
use queue_forge.Base.{
  Bool, Bool-cases, List, Option, Text, [], drop, if◌then◌else◌, inl, inr, length, ltb, ltb→lt,
  lt→ltb, none, refl, some, subst, suc, take, true, zero, ℕ, ◌++◌, ◌<◌, ◌∷◌, ◌≡◌,
}

take_all : (s rest : Text) → take (length s) (s ++ rest) ≡ s
take_all [] rest = refl
take_all (c ∷ s) rest = rw (take_all s rest) refl

drop_all : (s rest : Text) → drop (length s) (s ++ rest) ≡ rest
drop_all [] rest = refl
drop_all (c ∷ s) rest = drop_all s rest

unfoldable pack : Text → Text → Text
pack s rest = length s ∷ (s ++ rest)

unfoldable unpack : Text → Option (Text × Text)
unpack [] = none
unpack (n ∷ s) = some (take n s, drop n s)

unpack-pack : (s rest : Text) → unpack (pack s rest) ≡ some (s, rest)
unfolding unpack pack
unpack-pack s rest = rw (take_all s rest, drop_all s rest) refl

unfoldable pack_all : List Text → Text → Text
unfolding pack
pack_all [] rest = rest
pack_all (s ∷ ss) rest = pack s (pack_all ss rest)

unfoldable unpack_all : ℕ → Text → List Text × Text
unpack_all zero s = ([], s)
unpack_all (suc n) [] = ([], [])
unpack_all (suc n) (m ∷ s) = let (ss, rest) = unpack_all n (drop m s) in (take m s ∷ ss, rest)

unpack_all-pack_all :
    (ss : List Text) (rest : Text) → unpack_all (length ss) (pack_all ss rest) ≡ (ss, rest)
unfolding unpack_all pack_all pack
unpack_all-pack_all [] rest = refl
unpack_all-pack_all (s ∷ ss) rest =
    rw (drop_all s (pack_all ss rest), take_all s (pack_all ss rest), unpack_all-pack_all ss rest)
      refl

unfoldable pack_type : Option Text → Text → Text
unfolding pack
pack_type none rest = 0 ∷ rest
pack_type (some t) rest = 1 ∷ pack t rest

unfoldable pack_exp : Option ℕ → Text
pack_exp none = []
pack_exp (some e) = e ∷ []

unfoldable unpack_exp : Text → Option ℕ
unpack_exp [] = none
unpack_exp (e ∷ _) = some e

unpack_exp-pack_exp : (o : Option ℕ) → unpack_exp (pack_exp o) ≡ o
unfolding unpack_exp pack_exp
unpack_exp-pack_exp none = refl
unpack_exp-pack_exp (some e) = refl

unfoldable pack_roles : Option (List Text) → Text → Text
unfolding pack_all
pack_roles none rest = 0 ∷ rest
pack_roles (some rs) rest = suc (length rs) ∷ pack_all rs rest

unfoldable unpack_roles : Text → Option (List Text) × Text
unfolding unpack_all
unpack_roles [] = (none, [])
unpack_roles (zero ∷ s) = (none, s)
unpack_roles (suc n ∷ s) = let (rs, rest) = unpack_all n s in (some rs, rest)

unpack_roles-pack_roles :
    (o : Option (List Text)) (rest : Text) → unpack_roles (pack_roles o rest) ≡ (o, rest)
unfolding unpack_roles pack_roles
unpack_roles-pack_roles none rest = refl
unpack_roles-pack_roles (some rs) rest = rw (unpack_all-pack_all rs rest) refl

unfoldable text_or : Option (Text × Text) → Text × Text
text_or none = ([], [])
text_or (some p) = p

unfoldable unpack_type : Text → Option Text × Text
unfolding unpack text_or
unpack_type [] = (none, [])
unpack_type (zero ∷ s) = (none, s)
unpack_type (suc n ∷ s) = let (t, rest) = text_or (unpack s) in (some t, rest)

unpack_type-pack_type : (o : Option Text) (rest : Text) → unpack_type (pack_type o rest) ≡ (o, rest)
unfolding unpack_type pack_type text_or
unpack_type-pack_type none rest = refl
unpack_type-pack_type (some t) rest = rw (take_all t rest, drop_all t rest) refl

unfoldable pub sign_plain : Text → Claims → Text
unfolding pack pack_roles pack_type pack_exp
sign_plain secret c =
    c.iat
    ∷ pack c.sub (pack c.iss (pack c.aud (pack_roles c.roles (pack_type c.type (pack_exp c.exp)))))

unfoldable pub decode_plain : Text → Option Claims
unfolding text_or unpack unpack_roles unpack_type unpack_exp
decode_plain [] = none
decode_plain (at ∷ s) =
    let (sub, s1) = text_or (unpack s) in
    let (iss, s2) = text_or (unpack s1) in
    let (aud, s3) = text_or (unpack s2) in
    let (roles, s4) = unpack_roles s3 in
    let (type, s5) = unpack_type s4 in
    some (record {
      sub = sub;
      roles = roles;
      type = type;
      iss = iss;
      aud = aud;
      iat = at;
      exp = unpack_exp s5;
    })

pub decode_plain-sign_plain :
    (secret : Text) (c : Claims) → decode_plain (sign_plain secret c) ≡ some c
unfolding decode_plain sign_plain text_or
decode_plain-sign_plain secret c =
    let s5 = pack_exp c.exp in
    let s4 = pack_type c.type s5 in
    let s3 = pack_roles c.roles s4 in
    let s2 = pack c.aud s3 in
    let s1 = pack c.iss s2 in
    rw (take_all c.sub s1, drop_all c.sub s1, take_all c.iss s2, drop_all c.iss s2)
      (rw (take_all c.aud s3, drop_all c.aud s3, unpack_roles-pack_roles c.roles s4)
        (rw (unpack_type-pack_type c.type s5, unpack_exp-pack_exp c.exp) refl))

-- No expiry is one that never comes.
pub in_time : ℕ → Option ℕ → Bool
in_time now none = true
in_time now (some e) = ltb now e

unfoldable pub if_in_time : ℕ → Option Claims → Option Claims
unfolding in_time
if_in_time now none = none
if_in_time now (some c) = if in_time now c.exp then some c else none

pub if_in_time-some :
    (now : ℕ) (o : Option Claims) (c : Claims)
    → if_in_time now o ≡ some c
    → (o ≡ some c) × (in_time now c.exp ≡ true)
unfolding if_in_time
if_in_time-some now none c h = cc
if_in_time-some now (some d) c h = elim (Bool-cases (in_time now d.exp)) [
  | inl y ↦
      let e : some d ≡ some c = rw y at h in
      (e, subst (λ q. in_time now q.exp ≡ true) (some_inj.0 e) y)
  | inr y ↦ cc
]

pub verified_plain :
    (now : ℕ) (secret : Text) (c : Claims) (e : ℕ)
    → c.exp ≡ some e
    → now < e
    → if_in_time now (decode_plain (sign_plain secret c)) ≡ some c
unfolding if_in_time in_time
verified_plain now secret c e x l =
    rw (decode_plain-sign_plain secret c, if_in_time, x, lt→ltb now e l) refl

pub verified_plain_before :
    (now : ℕ) (token : Text) (c : Claims) (e : ℕ)
    → if_in_time now (decode_plain token) ≡ some c
    → c.exp ≡ some e
    → now < e
unfolding in_time
verified_plain_before now token c e h x =
    let (_, u) = if_in_time-some now (decode_plain token) c h in ltb→lt now e (rw x at u)

abbrev pub plain_tokens : Jwt
plain_tokens = record {
  sign = sign_plain;
  decode = decode_plain;
  verify = λ now secret iss aud token. if_in_time now (decode_plain token);
  decode-sign = decode_plain-sign_plain;
  verify-sign = verified_plain;
  decode-verify = λ now secret iss aud token c h. (if_in_time-some now (decode_plain token) c h).0;
  verify-before = λ now secret iss aud token. verified_plain_before now token;
}
