-- ===== src/Search/Laws.antt =====
-- What a search of the catalog returns: which tools, how many, in what order.
use directory.Common.{
  In-map, map-In, length-map, ℕ, ◌≤◌, ◌≡◌, ◌⊎◌, ap, sym, refl, Bool, true, false, Option, none,
  some, List, [], ◌∷◌, map, Text, arith, filter, filter-In, In-filter, In-take, In, length,
  length-take, length-filter-le, take_all, is_some, Option-cases, inl, inr, nat_eq,
}
use directory.Common.Sort.{sort_by, In-sort_by, sort_by-In, length-sort_by}
use directory.Types.{ToolStatus, status_eq}
use directory.Types.Records.{MemoryTool}
use directory.Store.{Store, with_usage}
use directory.Lifecycle.{is_discoverable_status}
use directory.Search.{
  ToolSearchQuery, only, search_relevance, matches_search_filters, query_relevance, fields_of,
  is_exact,
}
use directory.Search.Rank.{
  Ranked, ranks_before, with_relevance, rank_search_candidates, is_found, search_tools,
}

module _ (fold : Text → Text) (is_word_char : ℕ → Bool) where
  pub In-with_relevance :
      (q : Option Text) (r : Ranked) (l : List MemoryTool)
      → In r (with_relevance fold is_word_char q l)
      → In r.tool l × (search_relevance fold is_word_char r.tool q ≡ some r.relevance)
  unfolding with_relevance
  In-with_relevance q r [] h = elim h [ ]
  In-with_relevance q r (t ∷ l) h = elim (Option-cases (search_relevance fold is_word_char t q)) [
    | inl e ↦ let (i, s) = In-with_relevance q r l (rw (e, with_relevance) at h) in (inr i, s)
    | inr (n, e) ↦
        elim (let g : (r ≡ record { tool = t; relevance = n })
              ⊎ In r (with_relevance fold is_word_char q l) =
            rw (e, with_relevance) at h in
          g) [
            | inl same ↦ (inl (ap (λ (x : Ranked). x.tool) same), rw (same, e) refl)
            | inr deep ↦ let (i, s) = In-with_relevance q r l deep in (inr i, s)
          ]
  ]

  with_relevance-In :
      (q : Option Text) (t : MemoryTool) (n : ℕ) (l : List MemoryTool)
      → In t l
      → search_relevance fold is_word_char t q ≡ some n
      → In (record { tool = t; relevance = n }) (with_relevance fold is_word_char q l)
  unfolding with_relevance
  with_relevance-In q t n [] h e = h
  with_relevance-In q t n (u ∷ l) (inl same) e =
      let found : search_relevance fold is_word_char u q ≡ some n = rw (sym same) e in
      rw (found, with_relevance)
        (inl (ap (λ (x : MemoryTool). record { tool = x; relevance = n }) same))
  with_relevance-In q t n (u ∷ l) (inr h) e =
      let rec = with_relevance-In q t n l h e in
      elim (Option-cases (search_relevance fold is_word_char u q)) [
        | inl s ↦ rw (s, with_relevance) rec
        | inr (m, s) ↦ rw (s, with_relevance) (inr rec)
      ]

  length-with_relevance :
      (q : Option Text) (l : List MemoryTool)
      → length (with_relevance fold is_word_char q l) ≤ length l
  unfolding with_relevance
  length-with_relevance q [] = omega arith
  length-with_relevance q (t ∷ l) =
      let rec = length-with_relevance q l in
      elim (Option-cases (search_relevance fold is_word_char t q)) [
        | inl s ↦ rw (s, with_relevance) (omega arith)
        | inr (m, s) ↦ rw (s, with_relevance) (omega arith)
      ]

  -- The counts of usage do not decide whether a tool is found.
  with_usage-relevance :
      (now : ℕ) (s : Store) (t : MemoryTool) (q : Option Text)
      → search_relevance fold is_word_char (with_usage now s t) q
        ≡ search_relevance fold is_word_char t q
  unfolding with_usage search_relevance query_relevance fields_of is_exact
  with_usage-relevance now s t none = refl
  with_usage-relevance now s t (some q) = refl

  with_usage-filters :
      (now : ℕ) (s : Store) (t : MemoryTool) (query : ToolSearchQuery)
      → matches_search_filters fold is_word_char (with_usage now s t) query
        ≡ matches_search_filters fold is_word_char t query
  unfolding with_usage matches_search_filters
  with_usage-filters now s t query = refl

  -- The conditions under which `searchTools` lists a tool.
  abbrev pub IsFound : ToolSearchQuery → MemoryTool → Type 0
  IsFound query t =
      (matches_search_filters fold is_word_char t query ≡ true)
      × (is_some (search_relevance fold is_word_char t query.q) ≡ true)

  In-rank :
      (t : MemoryTool) (tools : List MemoryTool) (query : ToolSearchQuery)
      → In t (rank_search_candidates fold is_word_char tools query)
      → In t tools
        × (matches_search_filters fold is_word_char t query ≡ true)
        × (n : ℕ) × (search_relevance fold is_word_char t query.q ≡ some n)
  unfolding rank_search_candidates
  In-rank t tools query h =
      let (r, i, e) = In-map (λ (r : Ranked). r.tool) t _ h in
      let j = In-sort_by ranks_before r _ (In-take query.limit r _ i) in
      let (k, s) = In-with_relevance query.q r _ j in
      let (m, f) = In-filter _ r.tool tools k in rw e (m, f, r.relevance, s)

  pub In-search_tools :
      (now : ℕ) (s : Store) (query : ToolSearchQuery) (t : MemoryTool)
      → In t (search_tools fold is_word_char now s query)
      → (u : MemoryTool) × In u s.tools × (t ≡ with_usage now s u) × IsFound query u
  unfolding search_tools is_found
  In-search_tools now s query t h =
      let (i, f, n, r) = In-rank t _ query h in
      let (u, j, e) = In-map (with_usage now s) t _ i in
      let (k, q) = In-filter (is_found fold is_word_char query) u s.tools j in
      (u, k, e, ground (arith, q))

  rank-In :
      (t : MemoryTool) (tools : List MemoryTool) (query : ToolSearchQuery)
      → length tools ≤ query.limit
      → In t tools
      → IsFound query t
      → In t (rank_search_candidates fold is_word_char tools query)
  unfolding rank_search_candidates
  rank-In t tools query h i (f, r) =
      elim (Option-cases (search_relevance fold is_word_char t query.q)) [
        | inl e ↦ let k : false ≡ true = rw e at r in cc
        | inr (n, e) ↦
            let found =
              filter (λ (u : MemoryTool). matches_search_filters fold is_word_char u query) tools in
            let l = with_relevance fold is_word_char query.q found in
            let j = with_relevance-In query.q t n found (filter-In _ t tools i f) e in
            rw
              (take_all query.limit (sort_by ranks_before l) (
                omega (
                  arith,
                  length-sort_by ranks_before l,
                  length-with_relevance query.q found,
                  length-filter-le
                      (λ (u : MemoryTool). matches_search_filters fold is_word_char u query) tools,
                )))
              (map-In (λ (x : Ranked). x.tool) (record { tool = t; relevance = n })
                (sort_by ranks_before l) (sort_by-In ranks_before _ l j))
      ]

  -- When the catalog is no longer than the limit, a search returns every stored tool that passes the
  -- filters and has a relevance.
  pub search_tools_complete :
      (now : ℕ) (s : Store) (query : ToolSearchQuery) (t : MemoryTool)
      → length s.tools ≤ query.limit
      → In t s.tools
      → IsFound query t
      → In (with_usage now s t) (search_tools fold is_word_char now s query)
  unfolding search_tools rank_search_candidates is_found
  search_tools_complete now s query t h i (f, r) =
      let p = is_found fold is_word_char query in
      let listed = map (with_usage now s) (filter p s.tools) in
      let t' = with_usage now s t in
      let i₁ =
        map-In (with_usage now s) t (filter p s.tools) (filter-In p t s.tools i (rw (f, r) refl)) in
      rank-In t' listed query
        (omega
          (arith, length-map (with_usage now s) (filter p s.tools), length-filter-le p s.tools))
        i₁ (rw (with_usage-filters now s t query) f, rw (with_usage-relevance now s t query.q) r)

  -- No search returns more tools than its limit.
  pub length-search_tools :
      (now : ℕ) (s : Store) (query : ToolSearchQuery)
      → length (search_tools fold is_word_char now s query) ≤ query.limit
  unfolding search_tools rank_search_candidates
  length-search_tools now s query =
      rw length-map (omega (arith, length-take query.limit (sort_by ranks_before _)))

  -- A search finds a suspended tool only when it asks for that status.
  pub search_tools-suspended :
      (now : ℕ) (s : Store) (query : ToolSearchQuery) (t : MemoryTool)
      → In t (search_tools fold is_word_char now s query)
      → t.status ≡ ToolStatus.suspended
      → query.status ≡ only ToolStatus.suspended
  unfolding search_tools matches_search_filters is_discoverable_status
  search_tools-suspended now s query t h e =
      let (i, f, n, r) = In-rank t _ query h in ground (arith, f, e)
