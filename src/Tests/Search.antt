-- ===== src/Tests/Search.antt =====
-- Searches of a catalog at concrete queries, with the case and the word characters of ASCII.
use directory.Common.{
  ℕ, ◌+◌, ◌≡◌, ◌≢◌, ◌↔◌, refl, inl, Bool, true, ◌&&◌, ◌||◌, none, some, [], ◌∷◌, map, Text, codes,
  arith, leb, if◌then◌else◌, In, All, is_some,
}
use directory.Common.Sort.{sort_by}
use directory.Types.{ToolStatus}
use directory.Types.Records.{MemoryTool}
use directory.Store.{Store, with_usage}
use directory.Search.{
  ToolSearchQuery, only, any_status, search_terms, words, fields_of, query_relevance,
  search_relevance, matches_search_filters, term_weight, score_terms, join_spaced, normalize, runs,
  trim,
}
use directory.Search.Terms.{HasTerm, query_relevance-found_iff}
use directory.Search.Rank.{search_tools, ranks_before, is_found}
use directory.Search.Laws.{search_tools_complete}
use directory.Search.Sound.{IsWanted, search_tools_sound}
use directory.Search.Order.{Descending, relevance_of, search_tools-Descending}
use directory.Tests.Data.{tool, catalog}

abbrev pub fold_ascii : Text → Text
fold_ascii s = map (λ c. if leb b'A' c && leb c b'Z' then c + 32 else c) s

abbrev pub is_alnum : ℕ → Bool
is_alnum c = (leb b'a' c && leb c b'z') || (leb b'0' c && leb c b'9')

abbrev web_tool : MemoryTool
web_tool = record tool {
  id = "t2";
  slug = codes "web-search";
  name = codes "Web Search";
  description = "docs about the web";
  status = ToolStatus.active;
}

abbrev docs_tool : MemoryTool
docs_tool = record tool { status = ToolStatus.active }

abbrev gone_tool : MemoryTool
gone_tool = record tool { id = "t3"; slug = codes "docs-old"; status = ToolStatus.suspended }

abbrev shelf : Store
shelf = record catalog { tools = web_tool ∷ gone_tool ∷ docs_tool ∷ [] }

abbrev find_docs : ToolSearchQuery
find_docs = record {
  q = some (codes "find the DOCS");
  capability = none;
  protocol = none;
  category = none;
  status = any_status;
  trust_threshold = none;
  limit = 10;
}

-- What a search computes through.
searching : Unit {0}
unfolding search_tools search_terms words fields_of query_relevance search_relevance
    matches_search_filters term_weight score_terms join_spaced normalize runs trim ranks_before
    is_found with_usage sort_by
searching = tt

test_search_terms :
    (search_terms fold_ascii is_alnum (codes "find the DOCS") ≡ codes "documentation" ∷ [])
    × (search_terms fold_ascii is_alnum (codes "show me") ≡ codes "show" ∷ codes "me" ∷ [])
unfolding searching
test_search_terms = (refl, refl)

test_search_tools : search_tools fold_ascii is_alnum 200 shelf find_docs ≡ docs_tool ∷ web_tool ∷ []
unfolding searching
test_search_tools = refl

search_tools_sound_example :
    (u : MemoryTool) × In u shelf.tools
    × (docs_tool ≡ with_usage 200 shelf u)
    × IsWanted fold_ascii is_alnum find_docs u
unfolding searching
search_tools_sound_example =
    search_tools_sound fold_ascii is_alnum 200 shelf find_docs docs_tool (inl refl)

search_tools_complete_example :
    In (with_usage 200 shelf web_tool) (search_tools fold_ascii is_alnum 200 shelf find_docs)
unfolding searching
search_tools_complete_example =
    search_tools_complete fold_ascii is_alnum 200 shelf find_docs web_tool (omega arith) (inl refl)
      (refl, refl)

abbrev find_gone : ToolSearchQuery
find_gone = record find_docs { status = only ToolStatus.suspended }

search_tools-Descending_example :
    Descending
      (relevance_of fold_ascii is_alnum find_docs.q)
      (search_tools fold_ascii is_alnum 200 shelf find_docs)
search_tools-Descending_example = search_tools-Descending fold_ascii is_alnum 200 shelf find_docs

query_relevance-found_iff_example :
    (is_some (query_relevance fold_ascii is_alnum docs_tool (codes "docs")) ≡ true) ↔ (
      (search_terms fold_ascii is_alnum (codes "docs") ≢ [])
      × All
          (HasTerm fold_ascii is_alnum docs_tool)
          (search_terms fold_ascii is_alnum (codes "docs")))
query_relevance-found_iff_example =
    query_relevance-found_iff fold_ascii is_alnum docs_tool (codes "docs")
