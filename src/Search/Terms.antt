-- ===== src/Search/Terms.antt =====
-- When the search finds a tool for a query: all the terms of the query, each in some field.
use directory.Common.{
  is_empty_iff, starts_with_iff, ℕ, ◌+◌, ◌≤◌, ◌≡◌, ◌≢◌, ◌↔◌, ◌⊎◌, inl, inr, refl, Bool, true, false,
  ◌&&◌, Option, none, some, List, [], ◌∷◌, ◌++◌, if◌then◌else◌, ◌==◌, nat_eq, text_eq, Text, arith,
  any, any-In, any-of-In, In, All, codes, map, is_empty, is_some, Bool-cases, unique, unique_from,
  set_add,
}
use mathlib.Core.Option
use directory.Types.Records.{MemoryTool}
use directory.Search.{
  Field, utf16_length, join_spaced, matches, term_weight, score_terms, fields_of, search_terms,
  query_relevance, words, meaningful_of,
}

-- A word matches a term that it is, or a term of three UTF-16 units or more that it starts with.
abbrev pub Matches : Text → Text → Type 0
Matches word term = (word ≡ term) ⊎ (3 ≤ utf16_length term) × (s : Text) × (word ≡ term ++ s)

abbrev pub Occurs : List Field → Text → Type 0
Occurs fields term = (f : Field) × In f fields × (word : Text) × In word f.words × Matches word term

matches_iff : (word term : Text) → (matches word term ≡ true) ↔ Matches word term
matches_iff word term = (
  λ h. elim (Bool-cases (word == term)) [
    | inl e ↦ inl ((text_eq.same_iff word term).0 e)
    | inr e ↦ let (s, q) = (starts_with_iff word term).0 (ground arith) in inr (ground arith, s, q)
  ],
  λ h. elim h [
    | inl e ↦ let k = (text_eq.same_iff word term).1 e in ground arith
    | inr (n, s, q) ↦ let k = (starts_with_iff word term).1 (s, q) in ground arith
  ],
)

none_positive : 1 ≤ 0 → ⊥
none_positive h = omega arith

-- Every field counts.
abbrev Weighted : List Field → Type 0
Weighted fields = All (λ (f : Field). 1 ≤ f.weight) fields

term_weight_iff :
    (fields : List Field) (term : Text)
    → Weighted fields
    → (1 ≤ term_weight fields term) ↔ Occurs fields term
unfolding term_weight
term_weight_iff [] term w =
    (λ h. let k : 1 ≤ 0 = h in elim (none_positive k) [ ], λ (f, i, word, j, m). elim i [ ])
term_weight_iff (f ∷ fields) term (w, ws) =
    let rec = term_weight_iff fields term ws in
    elim (Bool-cases (any (λ word. matches word term) f.words)) [
      | inl e ↦ rw e (
        λ h.
            let (word, i, m) = any-In _ f.words e in
            (f, inl refl, word, i, (matches_iff word term).0 m),
        λ h. omega arith,
      )
      | inr e ↦ rw e (
        λ h. let (g, i, word, j, m) = rec.0 h in (g, inr i, word, j, m),
        λ (g, i, word, j, m). elim i [
          | inl same ↦
              let k =
                any-of-In (λ v. matches v term) word f.words (rw same at j)
                  ((matches_iff word term).1 m) in
              cc
          | inr deep ↦ rec.1 (g, deep, word, j, m)
        ],
      )
    ]

score_terms_iff :
    (fields : List Field) (n : ℕ) (terms : List Text)
    → Weighted fields
    → (is_some (score_terms fields n terms) ≡ true) ↔ All (Occurs fields) terms
unfolding score_terms
score_terms_iff fields n [] w = (λ h. tt, λ h. refl)
score_terms_iff fields n (term ∷ terms) w =
    let rec = score_terms_iff fields (n + term_weight fields term) terms w in
    elim (Bool-cases (term_weight fields term == 0)) [
      | inl e ↦ rw e (
        λ h. let k : false ≡ true = h in cc,
        λ (o, os). let k = (term_weight_iff fields term w).1 o in ground arith,
      )
      | inr e ↦
          rw e
            (λ h. ((term_weight_iff fields term w).0 (ground arith), rec.0 h), λ (o, os). rec.1 os)
    ]

is_some-map : {A B : Type 0} (f : A → B) (o : Option A) → is_some (Option.map f o) ≡ is_some o
is_some-map f none = refl
is_some-map f (some a) = refl

is_empty-set_add : (w : Text) (l : List Text) → is_empty (set_add w l) ≡ false
is_empty-set_add w [] = refl
is_empty-set_add w (v ∷ l) = elim (Bool-cases (v == w)) [ inl e ↦ rw e refl | inr e ↦ rw e refl ]

is_empty-unique_from :
    (seen l : List Text) → is_empty (unique_from seen l) ≡ (is_empty seen && is_empty l)
is_empty-unique_from seen [] = ground arith
is_empty-unique_from seen (w ∷ l) =
    rw (is_empty-unique_from (set_add w seen) l, is_empty-set_add w seen) (ground arith)

-- The choice between the meaningful words and all of them loses a list only when it is empty.
chosen-empty : (m l : List Text) → (if is_empty m then l else m) ≡ [] → is_empty l ≡ true
chosen-empty [] l h = (is_empty_iff l).1 h
chosen-empty (w ∷ m) l h = cc

All-iff : {A : Type 0} {P Q : A → Type 0} → ((a : A) → P a ↔ Q a) → (l : List A) → All P l ↔ All Q l
All-iff h [] = (λ _. tt, λ _. tt)
All-iff h (a ∷ l) =
    (λ (p, ps). ((h a).0 p, (All-iff h l).0 ps), λ (q, qs). ((h a).1 q, (All-iff h l).1 qs))

module _ (fold : Text → Text) (is_word_char : ℕ → Bool) where
  fields_of-Weighted : (t : MemoryTool) → Weighted (fields_of fold is_word_char t)
  unfolding fields_of
  fields_of-Weighted t =
      (omega arith, (omega arith, (omega arith, (omega arith, (omega arith, (omega arith, tt))))))

  -- The words of a tool: those of its slug, of its name, of its capabilities (joined by blanks), of
  -- the name and the slug of its provider, of its category (where it has one) and of its description.
  abbrev pub IsWordOf : MemoryTool → Text → Type 0
  IsWordOf t word =
      let from : Text → Type 0 = λ s. In word (words fold is_word_char s) in
      from t.slug
      ⊎ from t.name
      ⊎ from (join_spaced (map codes t.capabilities))
      ⊎ from (t.provider.name ++ b' ' ∷ t.provider.slug)
      ⊎ from (elim t.category [ none ↦ [] | some c ↦ codes c ])
      ⊎ from (codes t.description)

  abbrev pub HasTerm : MemoryTool → Text → Type 0
  HasTerm t term = (word : Text) × IsWordOf t word × Matches word term

  Occurs-iff :
      (t : MemoryTool) (term : Text) → Occurs (fields_of fold is_word_char t) term ↔ HasTerm t term
  unfolding fields_of
  Occurs-iff t term = (
    λ (f, i, word, j, m). (
      word,
      elim i [
        | inl e ↦ inl (rw e at j)
        | inr (inl e) ↦ inr (inl (rw e at j))
        | inr (inr (inl e)) ↦ inr (inr (inl (rw e at j)))
        | inr (inr (inr (inl e))) ↦ inr (inr (inr (inl (rw e at j))))
        | inr (inr (inr (inr (inl e)))) ↦ inr (inr (inr (inr (inl (rw e at j)))))
        | inr (inr (inr (inr (inr (inl e))))) ↦ inr (inr (inr (inr (inr (rw e at j)))))
        | inr (inr (inr (inr (inr (inr n))))) ↦ elim n [ ]
      ],
      m,
    ),
    λ (word, i, m). elim i [
      | inl j ↦ (_, inl refl, word, j, m)
      | inr (inl j) ↦ (_, inr (inl refl), word, j, m)
      | inr (inr (inl j)) ↦ (_, inr (inr (inl refl)), word, j, m)
      | inr (inr (inr (inl j))) ↦ (_, inr (inr (inr (inl refl))), word, j, m)
      | inr (inr (inr (inr (inl j)))) ↦ (_, inr (inr (inr (inr (inl refl)))), word, j, m)
      | inr (inr (inr (inr (inr j)))) ↦ (_, inr (inr (inr (inr (inr (inl refl))))), word, j, m)
    ],
  )

  -- A query that is not blank finds a tool exactly when it has a term, and each of its terms is a
  -- word of the tool's slug, name, capabilities, provider (name or slug), category or description,
  -- or, with three UTF-16 units or more, the start of such a word.
  pub query_relevance-found_iff :
      (t : MemoryTool) (query : Text)
      → (is_some (query_relevance fold is_word_char t query) ≡ true) ↔ (
          (search_terms fold is_word_char query ≢ [])
          × All (HasTerm t) (search_terms fold is_word_char query))
  unfolding query_relevance
  query_relevance-found_iff t query =
      let terms = search_terms fold is_word_char query in
      let fields = fields_of fold is_word_char t in
      let found = score_terms_iff fields 0 terms (fields_of-Weighted t) in
      let each = All-iff (Occurs-iff t) terms in
      elim (Bool-cases (is_empty terms)) [
        | inl e ↦
            rw e (
              λ h. let k : false ≡ true = h in cc,
              λ (n, o). elim (n ((is_empty_iff terms).0 e)) [ ],
            )
        | inr e ↦
            rw (e, is_some-map)
              (
                λ h. (λ q. let k = (is_empty_iff terms).1 q in cc, each.0 (found.0 h)),
                λ (n, o). found.1 (each.1 o),
              )
      ]

  -- A query with a word has a term: no query of filler words finds the whole catalog.
  pub search_terms-empty_iff :
      (query : Text)
      → (search_terms fold is_word_char query ≡ []) ↔ (words fold is_word_char query ≡ [])
  unfolding search_terms
  search_terms-empty_iff query =
      let l = unique (words fold is_word_char query) in
      let empty_words = is_empty-unique_from [] (words fold is_word_char query) in
      (
        λ h.
            let e = chosen-empty (meaningful_of l) l h in
            (is_empty_iff (words fold is_word_char query)).0 (ground arith),
        λ h. rw h refl,
      )
