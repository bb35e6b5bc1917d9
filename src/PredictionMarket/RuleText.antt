-- ===== src/PredictionMarket/RuleText.antt =====
-- `ruleAnalysis`: what the text of a market's rules shows. Its regular expressions ignore the case
-- of ASCII letters; `\b` stands between a word character and any other.
use directory.Common.{
  ℕ, Bool, true, false, not, ◌&&◌, ◌||◌, List, [], ◌∷◌, ◌++◌, map, leb, if◌then◌else◌, ◌==◌, nat_eq,
  Text, codes, any, filter, has_part, starts_with, is_empty, ◌≡◌, refl,
}
use directory.Slug.{to_lower_case}
use directory.Search.{trim}
use directory.PredictionMarket.Freshness.{is_digit}
use directory.PredictionMarket.Reference.{lower_ascii}

pub data SourceStatus : Type 0 where
  specific generic missing : SourceStatus

pub data TimeStatus : Type 0 where
  specific limited : TimeStatus

abbrev generic_source_patterns : List Text
generic_source_patterns =
    codes "consensus of credible reporting"
    ∷ codes "consensus of reputable reporting"
    ∷ codes "credible reporting"
    ∷ codes "reputable reporting"
    ∷ codes "widely reported"
    ∷ []

abbrev subjective_patterns : List Text
subjective_patterns =
    codes "significant"
    ∷ codes "substantial"
    ∷ codes "major"
    ∷ codes "material"
    ∷ codes "credible reporting"
    ∷ codes "reputable reporting"
    ∷ codes "widely reported"
    ∷ codes "clear consensus"
    ∷ codes "otherwise loses"
    ∷ codes "prevented from fulfilling"
    ∷ []

-- The alternatives of the pattern for a named source, less the last one.
abbrev named_sources : List Text
named_sources =
    codes "according to"
    ∷ codes "data from"
    ∷ codes "data published by"
    ∷ codes "official website"
    ∷ codes "official announcement"
    ∷ codes "official result"
    ∷ []

abbrev is_word_char : ℕ → Bool
is_word_char c = is_digit c || (leb b'a' c && leb c b'z') || (leb b'A' c && leb c b'Z') || c == b'_'

-- A pattern is a list of classes of characters.
abbrev literal : Text → List (ℕ → Bool)
literal s = map (λ c d. d == c) s

-- Does the pattern match here, up to the end of a word?
unfoldable pub word_here : List (ℕ → Bool) → Text → Bool
word_here [] [] = true
word_here [] (c ∷ s) = not (is_word_char c)
word_here (p ∷ ps) [] = false
word_here (p ∷ ps) (c ∷ s) = p c && word_here ps s

-- `inside` says that a word character stands just before.
unfoldable pub has_word : List (ℕ → Bool) → Bool → Text → Bool
unfolding word_here
has_word p inside [] = false
has_word p inside (c ∷ s) = (not inside && word_here p (c ∷ s)) || has_word p (is_word_char c) s

abbrev date_words : List (List (ℕ → Bool))
date_words =
    (literal (codes "20") ++ is_digit ∷ is_digit ∷ [])
    ∷ map literal (
        codes "jan"
        ∷ codes "january"
        ∷ codes "feb"
        ∷ codes "february"
        ∷ codes "mar"
        ∷ codes "march"
        ∷ codes "apr"
        ∷ codes "april"
        ∷ codes "may"
        ∷ codes "jun"
        ∷ codes "june"
        ∷ codes "jul"
        ∷ codes "july"
        ∷ codes "aug"
        ∷ codes "august"
        ∷ codes "sep"
        ∷ codes "september"
        ∷ codes "oct"
        ∷ codes "october"
        ∷ codes "nov"
        ∷ codes "november"
        ∷ codes "dec"
        ∷ codes "december"
        ∷ [])

abbrev boundary_words : List (List (ℕ → Bool))
boundary_words = map literal (
    codes "am"
    ∷ codes "pm"
    ∷ codes "et"
    ∷ codes "est"
    ∷ codes "edt"
    ∷ codes "utc"
    ∷ codes "gmt"
    ∷ codes "before"
    ∷ codes "after"
    ∷ codes "by"
    ∷ codes "between"
    ∷ codes "through"
    ∷ codes "end of"
    ∷ codes "start of"
    ∷ [])

unfoldable pub has_any_word : List (List (ℕ → Bool)) → Text → Bool
unfolding has_word
has_any_word ps s = any (λ p. has_word p false s) ps

-- `primary resolution source (is|will be) (?!a consensus)`: `p` stands somewhere, and what follows it
-- does not begin with "a consensus".
unfoldable pub names_primary_source : Text → Text → Bool
names_primary_source p [] = false
names_primary_source p (c ∷ s) =
    (starts_with (c ∷ s) p && not (starts_with (c ∷ s) (p ++ codes "a consensus")))
    || names_primary_source p s

unfoldable pub has_specific_source : Text → Text → Bool
unfolding trim names_primary_source
has_specific_source resolution_source rules =
    let t = map lower_ascii rules in
    not (is_empty (trim resolution_source))
    || has_part t (codes "http://")
    || has_part t (codes "https://")
    || any (has_part t) named_sources
    || names_primary_source (codes "primary resolution source is ") t
    || names_primary_source (codes "primary resolution source will be ") t

-- `${resolutionSource}\n${rules}` in lower case
unfoldable pub normalized : Text → Text → Text
unfolding to_lower_case
normalized resolution_source rules = to_lower_case (resolution_source ++ 10 ∷ rules)

unfoldable pub source_status : Text → Text → SourceStatus
unfolding normalized has_specific_source trim
source_status resolution_source description =
    let rules = trim description in
    if any (has_part (normalized resolution_source rules)) generic_source_patterns
    then SourceStatus.generic
    else if has_specific_source resolution_source rules
    then SourceStatus.specific
    else SourceStatus.missing

unfoldable pub time_status : Text → TimeStatus
unfolding has_any_word trim
time_status description =
    let t = map lower_ascii (trim description) in
    if has_any_word date_words t && has_any_word boundary_words t
    then TimeStatus.specific
    else TimeStatus.limited

unfoldable pub ambiguous_terms : Text → Text → List Text
unfolding normalized trim
ambiguous_terms resolution_source description =
    filter (has_part (normalized resolution_source (trim description))) subjective_patterns

test_rules :
    (source_status [] (codes "Resolves according to the NWS.") ≡ SourceStatus.specific)
    × (source_status []
          (codes "The primary resolution source is a consensus of credible reporting.")
        ≡ SourceStatus.generic)
    × (source_status [] (codes "It rains.") ≡ SourceStatus.missing)
    × (time_status (codes "Before Mar 3, 2027.") ≡ TimeStatus.specific)
    × (time_status (codes "In maritime ports by noon.") ≡ TimeStatus.limited)
    × (ambiguous_terms [] (codes "A major storm") ≡ codes "major" ∷ [])
unfolding source_status time_status ambiguous_terms
test_rules = (refl, refl, refl, refl, refl, refl)

-- Rules without a text have no time boundary.
pub time_status-nil : time_status [] ≡ TimeStatus.limited
unfolding time_status
time_status-nil = refl
