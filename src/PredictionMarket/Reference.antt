-- ===== src/PredictionMarket/Reference.antt =====
-- `parsePredictionMarketReference`. `parse_url` is the class URL: the name of the host and the path,
-- or `none` where its constructor throws.
pub mod Laws
pub mod Canonical
use directory.Common.{
  ℕ, suc, zero, ◌+◌, ◌≤◌, ◌≡◌, ◌≢◌, ◌⊎◌, inl, inr, refl, sym, ap, ◌∙◌, subst, Bool, true, false,
  not, ◌&&◌, ◌||◌, Option, none, some, List, [], ◌∷◌, ◌++◌, map, leb, if◌then◌else◌, ◌==◌, nat_eq,
  text_eq, Text, codes, arith, all, any, length, is_empty, starts_with, Bool-cases, Option-cases,
  In, All, includes,
}
use directory.Search.{trim, is_space, trim_start, trim_end}
use directory.PredictionMarket.Freshness.{is_digit}

pub data PredictionMarketReference : Type 0 where
  id slug : Text → PredictionMarketReference

abbrev pub value_of : PredictionMarketReference → Text
value_of (id v) = v
value_of (slug v) = v

pub data InputError : Type 0 where
  invalid_url other_host no_market invalid_market : InputError

pub data Parsed : Type 0 where
  ok : PredictionMarketReference → Parsed
  throws : InputError → Parsed

pub record ParsedUrl : Type 0 where
  pub hostname : Text
  pub pathname : Text

-- `/^\d{1,32}$/`
unfoldable pub is_market_id : Text → Bool
is_market_id s = leb 1 (length s) && leb (length s) 32 && all is_digit s

abbrev pub is_slug_start : ℕ → Bool
is_slug_start c = is_digit c || (leb b'a' c && leb c b'z')

abbrev pub is_slug_rest : ℕ → Bool
is_slug_rest c = is_slug_start c || c == b'-'

-- `/^[a-z0-9][a-z0-9-]{1,199}$/`
unfoldable pub is_market_slug : Text → Bool
is_market_slug [] = false
is_market_slug (c ∷ s) =
    is_slug_start c && leb 1 (length s) && leb (length s) 199 && all is_slug_rest s

abbrev pub lower_ascii : ℕ → ℕ
lower_ascii c = if leb b'A' c && leb c b'Z' then c + 32 else c

-- `/^https?:\/\//i`
unfoldable pub is_http : Text → Bool
is_http s =
    let t = map lower_ascii s in starts_with t (codes "http://") || starts_with t (codes "https://")

-- The last of the parts between slashes that is not empty; `seg` is the part so far, `last` the last
-- one that ended.
unfoldable pub last_segment : Text → Text → Text → Text
last_segment last seg [] = if is_empty seg then last else seg
last_segment last seg (c ∷ s) =
    last_segment (if c == b'/' && not (is_empty seg) then seg else last)
      (if c == b'/' then [] else seg ++ c ∷ []) s

abbrev pub hosts : List Text
hosts = codes "polymarket.com" ∷ codes "www.polymarket.com" ∷ []

-- The path's last part, or what is wrong with the URL.
unfoldable pub market_segment : Option ParsedUrl → Option InputError × Text
unfolding last_segment
market_segment none = (some invalid_url, [])
market_segment (some url) =
    let segment = last_segment [] [] url.pathname in
    if not (includes hosts url.hostname)
    then (some other_host, [])
    else if is_empty segment || segment == codes "event" || segment == codes "market"
    then (some no_market, [])
    else (none, segment)

unfoldable pub parse_slug : Text → Parsed
unfolding is_market_slug
parse_slug s = if is_market_slug s then ok (slug s) else throws invalid_market

-- The reference of the path's last part, unless the URL is refused.
abbrev pub follow : Option InputError → Option Parsed → Option Parsed
follow none rest = rest
follow (some e) rest = some (throws e)

module _ (parse_url : Text → Option ParsedUrl) where
  -- With fuel, for the call on the path's last part; `none` means that it ran out.
  unfoldable pub parse_prediction_market_reference : ℕ → Text → Option Parsed
  unfolding trim is_market_id is_http market_segment parse_slug
  parse_prediction_market_reference zero input = none
  parse_prediction_market_reference (suc fuel) input =
      let trimmed = trim input in
      let (error, segment) = market_segment (parse_url trimmed) in
      let rest = parse_prediction_market_reference fuel segment in
      if is_market_id trimmed
      then some (ok (id trimmed))
      else if not (is_http trimmed)
      then some (parse_slug trimmed)
      else follow error rest
