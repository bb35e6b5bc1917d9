-- ===== src/Search/Rank.antt =====
-- `rankSearchCandidates` of src/domain/catalog-search.ts and `searchTools` of
-- src/domain/memory-store.ts. The adjusted trust is raised by 0.15, so that it stays a natural
-- number; a text's order is that of its code points, which for slugs is that of JavaScript.
use directory.Common.{
  ℕ, ◌+◌, Bool, true, false, not, ◌&&◌, ◌||◌, Option, none, some, List, [], ◌∷◌, map, ltb,
  if◌then◌else◌, ◌==◌, nat_eq, Text, filter, take, is_some,
}
use directory.Common.Sort.{sort_by}
use directory.Types.{ToolStatus, status_eq}
use directory.Types.Records.{MemoryTool}
use directory.Store.{Store, with_usage}
use directory.Search.{ToolSearchQuery, search_relevance, matches_search_filters, overall_score}

pub record Ranked : Type 0 where
  pub tool : MemoryTool
  pub relevance : ℕ

abbrev pub adjusted_trust : MemoryTool → ℕ
adjusted_trust t =
    if t.status == ToolStatus.degraded then overall_score t else overall_score t + 1500

unfoldable pub text_leb : Text → Text → Bool
text_leb [] t = true
text_leb (c ∷ s) [] = false
text_leb (c ∷ s) (d ∷ t) = ltb c d || (c == d && text_leb s t)

-- The comparison of the sort: does `a` stay in front of `b`?
unfoldable pub ranks_before : Ranked → Ranked → Bool
unfolding text_leb
ranks_before a b =
    if not (a.relevance == b.relevance)
    then ltb b.relevance a.relevance
    else if not (adjusted_trust b.tool == adjusted_trust a.tool)
    then ltb (adjusted_trust b.tool) (adjusted_trust a.tool)
    else if not (b.tool.usage.invocations_7d == a.tool.usage.invocations_7d)
    then ltb b.tool.usage.invocations_7d a.tool.usage.invocations_7d
    else text_leb a.tool.slug b.tool.slug

module _ (fold : Text → Text) (is_word_char : ℕ → Bool) where
  -- The tools with their relevance, less those without.
  unfoldable pub with_relevance : Option Text → List MemoryTool → List Ranked
  unfolding search_relevance
  with_relevance q [] = []
  with_relevance q (t ∷ l) =
      let rest = with_relevance q l in
      elim (search_relevance fold is_word_char t q) [
        | none ↦ rest
        | some n ↦ record { tool = t; relevance = n } ∷ rest
      ]

  unfoldable pub rank_search_candidates : List MemoryTool → ToolSearchQuery → List MemoryTool
  unfolding with_relevance matches_search_filters ranks_before sort_by
  rank_search_candidates tools query =
      let found =
        with_relevance query.q
          (filter (λ (t : MemoryTool). matches_search_filters fold is_word_char t query) tools) in
      map (λ (r : Ranked). r.tool) (take query.limit (sort_by ranks_before found))

  unfoldable pub is_found : ToolSearchQuery → MemoryTool → Bool
  unfolding search_relevance matches_search_filters
  is_found query t =
      matches_search_filters fold is_word_char t query
      && is_some (search_relevance fold is_word_char t query.q)

  unfoldable pub search_tools : ℕ → Store → ToolSearchQuery → List MemoryTool
  unfolding is_found rank_search_candidates with_usage
  search_tools now s query =
      rank_search_candidates (map (with_usage now s) (filter (is_found query) s.tools)) query
