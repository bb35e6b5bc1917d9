-- ===== src/PredictionMarket/Freshness.antt =====
-- The age of evidence. `date_parse` is what `z.iso.datetime` and `Date.parse` make of a text: `none`
-- for one that is no date, or is before 1970.
use directory.Common.{
  ℕ, ◌+◌, ◌*◌, ◌-◌, ◌≤◌, ◌<◌, ◌≡◌, refl, min, Bool, ◌&&◌, Option, none, some, [], ◌∷◌, ltb, leb,
  all, if◌then◌else◌, Text, arith, is_empty,
}
use directory.Search.{trim}

abbrev pub market_metadata_max_age_ms : ℕ
market_metadata_max_age_ms = 24 * 60 * 60 * 1000

abbrev pub orderbook_max_age_ms : ℕ
orderbook_max_age_ms = 2 * 60 * 1000

abbrev pub evidence_clock_skew_ms : ℕ
evidence_clock_skew_ms = 30 * 1000

pub data FreshnessStatus : Type 0 where
  missing invalid future stale fresh : FreshnessStatus

pub record Freshness : Type 0 where
  pub status : FreshnessStatus
  pub observed_at : Option ℕ
  pub valid_until : Option ℕ

abbrev pub is_digit : ℕ → Bool
is_digit c = leb b'0' c && leb c b'9'

-- `Number(value)` on digits, exact wherever `Number.isSafeInteger` holds.
unfoldable pub decimal : ℕ → Text → ℕ
decimal n [] = n
decimal n (c ∷ s) = decimal (n * 10 + (c - b'0')) s

-- `ms > 0 && ms <= 8.64e15`, which is below the greatest safe integer.
abbrev in_range : ℕ → Option ℕ
in_range ms = if ltb 0 ms && leb ms 8640000000000000 then some ms else none

abbrev bind_range : Option ℕ → Option ℕ
bind_range none = none
bind_range (some ms) = in_range ms

abbrev age_status : ℕ → ℕ → ℕ → FreshnessStatus
age_status ms max_age now =
    if ltb (now + evidence_clock_skew_ms) ms
    then future
    else if leb (ms + max_age) now
    then stale
    else fresh

unfoldable pub freshness_of : Option ℕ → ℕ → ℕ → Freshness
freshness_of none max_age now = record { status = invalid; observed_at = none; valid_until = none }
freshness_of (some ms) max_age now = record {
  status = age_status ms max_age now;
  observed_at = some ms;
  valid_until = elim (age_status ms max_age now) [ fresh ↦ some (min ms now + max_age) | _ ↦ none ];
}

-- What a fresh piece of evidence says: when it was observed, and until when it counts.
pub freshness_of-fresh :
    (o : Option ℕ) (max_age now : ℕ)
    → (freshness_of o max_age now).status ≡ fresh
    → (ms : ℕ) × (o ≡ some ms)
      × (ms ≤ now + evidence_clock_skew_ms)
      × (now < ms + max_age)
      × ((freshness_of o max_age now).valid_until ≡ some (min ms now + max_age))
unfolding freshness_of
freshness_of-fresh none max_age now h = cc
freshness_of-fresh (some ms) max_age now h = (ms, refl, ground arith, ground arith, ground arith)

module _ (date_parse : Text → Option ℕ) where
  unfoldable pub timestamp_ms : Bool → Text → Option ℕ
  unfolding trim decimal
  timestamp_ms epoch value =
      if is_empty (trim value)
      then none
      else if epoch
      then (if all is_digit value then in_range (decimal 0 value) else none)
      else bind_range (date_parse value)

  unfoldable pub evidence_freshness : Option Text → ℕ → ℕ → Bool → Freshness
  unfolding timestamp_ms freshness_of
  evidence_freshness none max_age now epoch = record {
    status = missing;
    observed_at = none;
    valid_until = none;
  }
  evidence_freshness (some value) max_age now epoch =
      if is_empty (trim value)
      then record { status = missing; observed_at = none; valid_until = none }
      else freshness_of (timestamp_ms epoch value) max_age now
