-- ===== src/Examples/Doubles/Hashes.antt =====
-- Hashes of letters, and a cache of API keys in memory.
use mathlib.Core.Option
use queue_forge.Base.Maps.{find, put, find-put}
use queue_forge.Security.Signatures.{Crypto}
use queue_forge.Security.ApiKeys.{Cached, KeyCache}
use queue_forge.Security.Headers.{IsPlain, is_blank}
use queue_forge.Base.{
  List, Option, Text, [], ap, arith, lower, none, refl, same_codes_refl, some, upper, ℕ, ◌%◌, ◌++◌,
  ◌+◌, ◌-◌, ◌∷◌, ◌≡◌,
}

-- A letter for each character.
unfoldable pub letters : Text → Text
letters [] = []
letters (c ∷ cs) = (97 + c % 6) ∷ letters cs

pub letters-IsPlain : (s : Text) → IsPlain (letters s)
unfolding letters IsPlain is_blank
letters-IsPlain [] = tt
letters-IsPlain (c ∷ cs) = (ground arith, ground arith, letters-IsPlain cs)

pub upper-letters-IsPlain : (s : Text) → IsPlain (upper (letters s))
unfolding letters IsPlain is_blank
upper-letters-IsPlain [] = tt
upper-letters-IsPlain (c ∷ cs) = (ground arith, ground arith, upper-letters-IsPlain cs)

-- A date is one character, far from the blanks.
unfoldable pub far_iso : ℕ → Text
far_iso t = (70000 + t) ∷ []

pub far_iso-IsPlain : (t : ℕ) → IsPlain (far_iso t)
unfolding far_iso IsPlain is_blank
far_iso-IsPlain t = (ground arith, ground arith, tt)

unfoldable pub far_parse : Text → Option ℕ
far_parse [] = none
far_parse (c ∷ cs) = some (c - 70000)

pub far_parse-far_iso : (t : ℕ) → far_parse (far_iso t) ≡ some t
unfolding far_parse far_iso
far_parse-far_iso t = ap some (omega arith)

abbrev pub plain_crypto : Crypto
plain_crypto = record {
  hmac = λ secret s. letters (secret ++ s);
  bytes = lower;
  iso = far_iso;
  parse_date = far_parse;
  hmac-IsPlain = λ secret s. letters-IsPlain (secret ++ s);
  iso-IsPlain = far_iso-IsPlain;
  parse_date-iso = far_parse-far_iso;
}

-- A cache in memory.
abbrev pub key_cache : KeyCache
key_cache = record {
  Store = List (Text × Cached);
  get = λ h s. Option.map some (find h s);
  set = put;
  get-set = λ h c s. rw (find-put h h c s, same_codes_refl h) refl;
  get-set_other = λ h g c s d. rw (find-put g h c s, d) refl;
}
