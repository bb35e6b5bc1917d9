-- ===== src/Search/Sound.antt =====
-- What a tool that a search returns has to do with the query, src/domain/catalog-search.ts.
use directory.Common.{
  ℕ, ◌≤◌, ◌≡◌, ◌≢◌, ◌⊎◌, refl, inl, inr, Bool, true, false, Option, none, some, List, [], ◌&&◌,
  Text, codes, String, string_eq, arith, any-In, In, All, Part, has_part, has_part_iff, is_empty,
  is_empty_iff, is_some, Bool-cases, ◌==◌,
}
use directory.Types.{ToolStatus, ToolProtocol, status_eq, protocol_eq}
use directory.Types.Records.{MemoryTool, TrustProfile}
use directory.Store.{Store, with_usage}
use directory.Lifecycle.{is_discoverable_status}
use directory.Search.{
  ToolSearchQuery, only, any_status, search_relevance, search_terms, normalize, trim,
  matches_search_filters, matches_capability, matches_status, matches_protocol, matches_category,
  matches_trust, overall_score,
}
use directory.Search.Terms.{HasTerm, query_relevance-found_iff}
use directory.Search.Rank.{search_tools}
use directory.Search.Laws.{IsFound, In-search_tools}

active_of :
    (s : ToolStatus)
    → matches_status (only ToolStatus.active) s ≡ true
    → (s ≡ ToolStatus.active) ⊎ (s ≡ ToolStatus.degraded)
unfolding is_discoverable_status
active_of s h = ground arith

any_of : (s : ToolStatus) → matches_status any_status s ≡ true → s ≢ ToolStatus.suspended
unfolding matches_status
any_of s h e = let k : false ≡ true = rw e at h in cc

other_of : (st s : ToolStatus) → st ≢ ToolStatus.active → matches_status (only st) s ≡ true → s ≡ st
unfolding is_discoverable_status
other_of ToolStatus.active s n h = absurd (n refl)
other_of ToolStatus.pending s n h = ground arith
other_of ToolStatus.degraded s n h = ground arith
other_of ToolStatus.deprecated s n h = ground arith
other_of ToolStatus.suspended s n h = ground arith

protocol_of : (p q : ToolProtocol) → matches_protocol (some p) q ≡ true → q ≡ p
protocol_of p q h = let e = (protocol_eq.same_iff p q).0 h in cc

category_of :
    (c : String) (o : Option String) → c ≢ "" → matches_category (some c) o ≡ true → o ≡ some c
category_of c none n h = absurd (n ((string_eq.same_iff c "").0 h))
category_of c (some d) n h = elim (Bool-cases (c == "")) [
  | inl e ↦ absurd (n ((string_eq.same_iff c "").0 e))
  | inr e ↦ let same = (string_eq.same_iff c d).0 (rw e at h) in cc
]

trust_of :
    (n : ℕ) (o : Option TrustProfile)
    → matches_trust (some n) (elim o [ none ↦ 0 | some p ↦ p.overall_score ]) ≡ true
    → (n ≡ 0) ⊎ (p : TrustProfile) × (o ≡ some p) × (n ≤ p.overall_score)
trust_of n none h = inl (ground arith)
trust_of n (some p) h = inr (p, refl, ground arith)

module _ (fold : Text → Text) (is_word_char : ℕ → Bool) where
  -- What the query asks of a tool, each part of it where the query has it.
  pub record IsWanted (query : ToolSearchQuery) (t : MemoryTool) : Type 0 where
    pub when_active :
        query.status ≡ only ToolStatus.active
        → (t.status ≡ ToolStatus.active) ⊎ (t.status ≡ ToolStatus.degraded)
    pub when_any : query.status ≡ any_status → t.status ≢ ToolStatus.suspended
    pub when_other :
        (st : ToolStatus) → query.status ≡ only st → st ≢ ToolStatus.active → t.status ≡ st
    pub protocol : (p : ToolProtocol) → query.protocol ≡ some p → t.protocol ≡ p
    pub category : (c : String) → query.category ≡ some c → c ≢ "" → t.category ≡ some c
    pub capability :
        (c : Text)
        → query.capability ≡ some c
        → normalize fold is_word_char c ≢ []
        → (v : String) × In v t.capabilities
          × Part (normalize fold is_word_char c) (normalize fold is_word_char (codes v))
    pub trust :
        (n : ℕ)
        → query.trust_threshold ≡ some n
        → (n ≡ 0) ⊎ (p : TrustProfile) × (t.trust ≡ some p) × (n ≤ p.overall_score)
    pub terms :
        (q : Text)
        → query.q ≡ some q
        → trim q ≢ []
        → (search_terms fold is_word_char q ≢ [])
          × All (HasTerm fold is_word_char t) (search_terms fold is_word_char q)

  capability_of :
      (c : Text) (l : List String)
      → matches_capability fold is_word_char (some c) l ≡ true
      → normalize fold is_word_char c ≢ []
      → (v : String) × In v l
        × Part (normalize fold is_word_char c) (normalize fold is_word_char (codes v))
  unfolding matches_capability
  capability_of c l h n =
      let capability = normalize fold is_word_char c in
      let has : String → Bool = λ v. has_part (normalize fold is_word_char (codes v)) capability in
      let (v, i, m) = any-In has l (elim (Bool-cases (is_empty capability)) [
        | inl e ↦ absurd (n ((is_empty_iff capability).0 e))
        | inr e ↦ rw e at h
      ]) in
      (v, i, (has_part_iff (normalize fold is_word_char (codes v)) capability).0 m)

  terms_of :
      (t : MemoryTool) (q : Text)
      → is_some (search_relevance fold is_word_char t (some q)) ≡ true
      → trim q ≢ []
      → (search_terms fold is_word_char q ≢ [])
        × All (HasTerm fold is_word_char t) (search_terms fold is_word_char q)
  unfolding search_relevance
  terms_of t q h n =
      (query_relevance-found_iff fold is_word_char t q).0 (elim (Bool-cases (is_empty (trim q))) [
        | inl e ↦ absurd (n ((is_empty_iff (trim q)).0 e))
        | inr e ↦ rw e at h
      ])

  and_split :
      (a b c d e : Bool)
      → (a && b && c && d && e) ≡ true
      → (a ≡ true) × (b ≡ true) × (c ≡ true) × (d ≡ true) × (e ≡ true)
  and_split a b c d e h = ground arith

  IsFound-IsWanted :
      (query : ToolSearchQuery) (t : MemoryTool)
      → IsFound fold is_word_char query t
      → IsWanted query t
  unfolding matches_search_filters
  IsFound-IsWanted query t (f, r) =
      let (status, protocol, category, capability, trust) =
        and_split (matches_status query.status t.status)
          (matches_protocol query.protocol t.protocol) (matches_category query.category t.category)
          (matches_capability fold is_word_char query.capability t.capabilities)
          (matches_trust query.trust_threshold (overall_score t)) f in
      record {
        when_active = λ e. active_of t.status (rw e at status);
        when_any = λ e. any_of t.status (rw e at status);
        when_other = λ st e n. other_of st t.status n (rw e at status);
        protocol = λ p e. protocol_of p t.protocol (rw e at protocol);
        category = λ c e n. category_of c t.category n (rw e at category);
        capability = λ c e n. capability_of c t.capabilities (rw e at capability) n;
        trust = λ n e. trust_of n t.trust (rw e at trust);
        terms = λ q e n. terms_of t q (rw e at r) n;
      }

  -- Every tool that a search returns is a stored one with its counts of usage, and it is what the
  -- query asks for. Its status is active or degraded where active tools are asked for, any but
  -- suspended where any status will do, and else the status asked for; it has the protocol and the
  -- category (unless this is empty), and a capability that contains the one asked for (unless this is
  -- empty), both normalized; its overall score, 0 where it has no profile, is not below the
  -- threshold; and where the query has a text that is not blank, this has a term, and each of its
  -- terms is a word of the tool or the start of one.
  pub search_tools_sound :
      (now : ℕ) (s : Store) (query : ToolSearchQuery) (t : MemoryTool)
      → In t (search_tools fold is_word_char now s query)
      → (u : MemoryTool) × In u s.tools × (t ≡ with_usage now s u) × IsWanted query u
  search_tools_sound now s query t h =
      let (u, i, e, found) = In-search_tools fold is_word_char now s query t h in
      (u, i, e, IsFound-IsWanted query u found)
