-- ===== src/Search.antt =====
-- src/domain/catalog-search.ts: the lexical search over the catalog. `fold` is what
-- `normalize("NFKC").toLowerCase()` does to a text, `is_word_char` the class [\p{L}\p{N}].
pub mod Rank
pub mod Terms
pub mod Laws
pub mod Sound
pub mod Order
use directory.Common.{
  ℕ, ◌+◌, Bool, true, false, not, ◌&&◌, ◌||◌, Option, none, some, List, [], ◌∷◌, ◌++◌, map, max,
  leb, if◌then◌else◌, ◌==◌, nat_eq, string_eq, text_eq, String, Text, codes, starts_with, has_part,
  any, filter, includes, is_empty, length, unique,
}
use mathlib.Core.Option
use directory.Types.{ToolProtocol, ToolStatus, status_eq, protocol_eq}
use directory.Types.Records.{MemoryTool, TrustProfile}
use directory.Lifecycle.{is_discoverable_status}

pub data StatusFilter : Type 0 where
  only : ToolStatus → StatusFilter
  any_status : StatusFilter

pub record ToolSearchQuery : Type 0 where
  pub q : Option Text
  pub capability : Option Text
  pub protocol : Option ToolProtocol
  pub category : Option String
  pub status : StatusFilter
  pub trust_threshold : Option ℕ
  pub limit : ℕ

abbrev filler_words : List Text
filler_words =
    codes "a"
    ∷ codes "an"
    ∷ codes "the"
    ∷ codes "find"
    ∷ codes "show"
    ∷ codes "me"
    ∷ codes "please"
    ∷ codes "for"
    ∷ codes "with"
    ∷ codes "to"
    ∷ codes "that"
    ∷ codes "can"
    ∷ codes "help"
    ∷ []

abbrev pub meaningful_of : List Text → List Text
meaningful_of l = filter (λ w. not (includes filler_words w)) l

-- What JavaScript's `trim` takes away.
abbrev pub is_space : ℕ → Bool
is_space c =
    (leb 9 c && leb c 13)
    || c == 32
    || c == 0xa0
    || c == 0x1680
    || (leb 0x2000 c && leb c 0x200a)
    || c == 0x2028
    || c == 0x2029
    || c == 0x202f
    || c == 0x205f
    || c == 0x3000
    || c == 0xfeff

unfoldable pub trim_start : Text → Text
trim_start [] = []
trim_start (c ∷ s) = if is_space c then trim_start s else c ∷ s

unfoldable pub trim_end : Text → Text
trim_end [] = []
trim_end (c ∷ s) = let rest = trim_end s in if is_space c && is_empty rest then [] else c ∷ rest

unfoldable pub trim : Text → Text
unfolding trim_start trim_end
trim s = trim_end (trim_start s)

abbrev flush : Text → List Text
flush [] = []
flush (c ∷ s) = (c ∷ s) ∷ []

-- `/^(doc|docs|documentation)$/`
abbrev canonical_word : Text → Text
canonical_word w =
    if w == codes "doc" || w == codes "docs" || w == codes "documentation"
    then codes "documentation"
    else w

unfoldable pub join_spaced : List Text → Text
join_spaced [] = []
join_spaced (w ∷ []) = w
join_spaced (w ∷ v ∷ l) = w ++ b' ' ∷ join_spaced (v ∷ l)

abbrev pub spaced : List Text → Text
spaced l = b' ' ∷ (join_spaced l ++ b' ' ∷ [])

pub record Field : Type 0 where
  pub words : List Text
  pub weight : ℕ

-- `length` of a JavaScript text, which counts UTF-16 units: two for a code point from U+10000 on.
abbrev pub utf16_length : Text → ℕ
utf16_length [] = 0
utf16_length (c ∷ s) = (if leb 0x10000 c then 2 else 1) + utf16_length s

abbrev pub matches : Text → Text → Bool
matches word term = word == term || (leb 3 (utf16_length term) && starts_with word term)

-- The greatest weight among the fields with a word that matches.
unfoldable pub term_weight : List Field → Text → ℕ
term_weight [] term = 0
term_weight (f ∷ fields) term =
    if any (λ word. matches word term) f.words
    then max f.weight (term_weight fields term)
    else term_weight fields term

-- `none` as soon as one term occurs in no field.
unfoldable pub score_terms : List Field → ℕ → List Text → Option ℕ
unfolding term_weight
score_terms fields score [] = some score
score_terms fields score (term ∷ terms) =
    let weight = term_weight fields term in
    if weight == 0 then none else score_terms fields (score + weight) terms

abbrev bonus : Bool → ℕ → ℕ
bonus true n = n
bonus false n = 0

unfoldable pub has_phrase : List Field → List Text → Bool
unfolding join_spaced
has_phrase fields terms = any (λ (f : Field). has_part (spaced f.words) (spaced terms)) fields

abbrev pub matches_status : StatusFilter → ToolStatus → Bool
unfolding is_discoverable_status
matches_status (only ToolStatus.active) s = is_discoverable_status s
matches_status any_status s = not (s == ToolStatus.suspended)
matches_status (only status) s = s == status

abbrev pub matches_protocol : Option ToolProtocol → ToolProtocol → Bool
matches_protocol none p = true
matches_protocol (some query) p = query == p

abbrev pub matches_category : Option String → Option String → Bool
matches_category none c = true
matches_category (some query) none = query == ""
matches_category (some query) (some c) = query == "" || query == c

abbrev pub overall_score : MemoryTool → ℕ
overall_score t = elim t.trust [ none ↦ 0 | some p ↦ p.overall_score ]

abbrev pub matches_trust : Option ℕ → ℕ → Bool
matches_trust none score = true
matches_trust (some threshold) score = leb threshold score

module _ (fold : Text → Text) (is_word_char : ℕ → Bool) where
  unfoldable pub normalize : Text → Text
  unfolding trim
  normalize value = trim (fold value)

  -- The longest runs of word characters; `w` is the run so far.
  unfoldable pub runs : Text → Text → List Text
  runs w [] = flush w
  runs w (c ∷ s) = if is_word_char c then runs (w ++ c ∷ []) s else flush w ++ runs [] s

  unfoldable pub words : Text → List Text
  unfolding normalize runs
  words value = map canonical_word (runs [] (normalize value))

  -- A query of filler words alone keeps them.
  unfoldable pub search_terms : Text → List Text
  unfolding words
  search_terms q =
      let words_of_q = unique (words q) in
      let meaningful = meaningful_of words_of_q in
      if is_empty meaningful then words_of_q else meaningful

  unfoldable pub fields_of : MemoryTool → List Field
  unfolding words join_spaced
  fields_of t =
      record { words = words t.slug; weight = 12 }
      ∷ record { words = words t.name; weight = 12 }
      ∷ record { words = words (join_spaced (map codes t.capabilities)); weight = 8 }
      ∷ record { words = words (t.provider.name ++ b' ' ∷ t.provider.slug); weight = 6 }
      ∷ record { words = words (elim t.category [ none ↦ [] | some c ↦ codes c ]); weight = 3 }
      ∷ record { words = words (codes t.description); weight = 1 }
      ∷ []

  unfoldable pub is_exact : MemoryTool → Text → Bool
  unfolding normalize
  is_exact t query = normalize t.slug == normalize query || normalize t.name == normalize query

  unfoldable pub query_relevance : MemoryTool → Text → Option ℕ
  unfolding search_terms fields_of score_terms is_exact has_phrase
  query_relevance t query =
      let terms = search_terms query in
      if is_empty terms
      then none
      else Option.map
          (λ score.
            score + bonus (is_exact t query) 10000 + bonus (has_phrase (fields_of t) terms) 30)
          (score_terms (fields_of t) 0 terms)

  -- No query, or one of blanks, finds every tool.
  unfoldable pub search_relevance : MemoryTool → Option Text → Option ℕ
  unfolding query_relevance trim
  search_relevance t none = some 0
  search_relevance t (some query) =
      if is_empty (trim query) then some 0 else query_relevance t query

  unfoldable pub matches_capability : Option Text → List String → Bool
  unfolding normalize
  matches_capability none l = true
  matches_capability (some query) l =
      let capability = normalize query in
      is_empty capability || any (λ value. has_part (normalize (codes value)) capability) l

  unfoldable pub matches_search_filters : MemoryTool → ToolSearchQuery → Bool
  unfolding matches_capability is_discoverable_status
  matches_search_filters t query =
      matches_status query.status t.status
      && matches_protocol query.protocol t.protocol
      && matches_category query.category t.category
      && matches_capability query.capability t.capabilities
      && matches_trust query.trust_threshold (overall_score t)
