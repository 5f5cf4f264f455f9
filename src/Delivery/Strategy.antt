-- ===== src/Delivery/Strategy.antt =====
-- src/domain/value-objects/retry-strategy.vo.ts: how long to wait before the next attempt. Delays
-- are whole milliseconds; a jitter factor and the value that Math.random returns are fractions.
pub mod Laws
use queue_forge.Base.{
  ℕ, ◌+◌, ◌-◌, ◌*◌, ◌^◌, min, max, Bool, true, false, ◌||◌, Option, none, some, Text, codes,
  same_codes, upper, or_else, if◌then◌else◌, ltb, leb,
}
use queue_forge.Base.Int.{ℤ, pos, is_negative, clamp_zero}
use queue_forge.Base.Ratios.{Ratio, is_zero, scale}

pub data Kind : Type 0 where
  exponential linear fixed : Kind
  custom : Text → Kind

pub record Config : Type 0 where
  pub initial_delay_ms : ℕ
  pub max_delay_ms : ℕ
  pub jitter_factor : Ratio
  pub max_retries : Option ℕ

pub record Strategy : Type 0 where
  pub type : Kind
  pub config : Config

-- A configuration before it is checked.
pub record RawConfig : Type 0 where
  pub initial_delay_ms : ℤ
  pub max_delay_ms : ℤ
  pub jitter_num : ℤ
  pub jitter_den : ℕ
  pub max_retries : Option ℕ

kind_named : Text → Kind
kind_named s =
    if same_codes s (codes "EXPONENTIAL")
    then exponential
    else if same_codes s (codes "LINEAR")
    then linear
    else if same_codes s (codes "FIXED")
    then fixed
    else custom s

-- The constructor; `none` is its ValidationError. Delays that passed the test for a sign are
-- kept as natural numbers.
unfoldable pub make : Text → RawConfig → Option Strategy
unfolding kind_named
make type c =
    if is_negative c.initial_delay_ms || is_negative c.max_delay_ms
    then none
    else if ltb (clamp_zero c.max_delay_ms) (clamp_zero c.initial_delay_ms)
    then none
    else if is_negative c.jitter_num || ltb c.jitter_den (clamp_zero c.jitter_num)
    then none
    else some (record {
      type = kind_named (upper type);
      config = record {
        initial_delay_ms = clamp_zero c.initial_delay_ms;
        max_delay_ms = clamp_zero c.max_delay_ms;
        jitter_factor = record { num = clamp_zero c.jitter_num; den = c.jitter_den };
        max_retries = c.max_retries;
      };
    })

-- The delay before it is capped: Math.floor(base + base * factor * draw), and no draw is made
-- where the factor is 0.
jittered : ℕ → Ratio → Ratio → ℕ
jittered base factor draw = if is_zero factor then base else base + scale base factor draw

uncapped : Kind → Config → ℕ → Ratio → ℕ
unfolding jittered
uncapped exponential c attempt draw =
    jittered (c.initial_delay_ms * 2 ^ (attempt - 1)) c.jitter_factor draw
uncapped linear c attempt draw = jittered (c.initial_delay_ms * attempt) c.jitter_factor draw
uncapped fixed c attempt draw = c.initial_delay_ms
uncapped (custom s) c attempt draw = c.initial_delay_ms

pub calculate_delay : Strategy → ℕ → Ratio → ℕ
unfolding uncapped
calculate_delay s number draw =
    min (uncapped s.type s.config (max 1 number) draw) s.config.max_delay_ms

pub calculate_backoff : Strategy → ℕ → Ratio → ℕ
unfolding calculate_delay jittered
calculate_backoff s number draw =
    if leb number 1
    then calculate_delay s 1 draw
    else min (jittered (s.config.initial_delay_ms * 2 ^ number) s.config.jitter_factor draw)
        s.config.max_delay_ms

pub max_retries : Strategy → ℕ
max_retries s = or_else s.config.max_retries 5

is_max_retries_exceeded : Strategy → ℕ → ℕ → Bool
is_max_retries_exceeded s count limit = leb (or_else s.config.max_retries limit) count

unfoldable pub can_retry : Strategy → ℕ → Bool
unfolding is_max_retries_exceeded
can_retry s count = if is_max_retries_exceeded s count 5 then false else true

-- The factories, with the arguments that their defaults fill.
unfoldable exponential_strategy : ℤ → ℤ → ℤ → ℕ → ℕ → Option Strategy
unfolding make
exponential_strategy initial longest jitter_num jitter_den retries =
    make (codes "EXPONENTIAL") (record {
      initial_delay_ms = initial;
      max_delay_ms = longest;
      jitter_num = jitter_num;
      jitter_den = jitter_den;
      max_retries = some retries;
    })

unfoldable linear_strategy : ℤ → ℤ → ℤ → ℕ → ℕ → Option Strategy
unfolding make
linear_strategy delay longest jitter_num jitter_den retries = make (codes "LINEAR") (record {
  initial_delay_ms = delay;
  max_delay_ms = longest;
  jitter_num = jitter_num;
  jitter_den = jitter_den;
  max_retries = some retries;
})

unfoldable fixed_strategy : ℤ → ℕ → Option Strategy
unfolding make
fixed_strategy delay retries = make (codes "FIXED") (record {
  initial_delay_ms = delay;
  max_delay_ms = delay;
  jitter_num = pos 0;
  jitter_den = 1;
  max_retries = some retries;
})
