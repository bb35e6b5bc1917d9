-- ===== src/Search/Order.antt =====
-- The order of a search's results: the sort puts the more relevant tools first.
use directory.Common.{
  ℕ, ◌≤◌, ◌≡◌, refl, Bool, true, false, Option, List, [], ◌∷◌, map, Text, arith, In, All, take, suc,
  zero, Bool-cases, inl, inr, or_else, nat_eq, filter,
}
use directory.Common.Sort.{insert_by, sort_by, In-sort_by}
use directory.Types.Records.{MemoryTool}
use directory.Store.{Store, with_usage}
use directory.Search.{ToolSearchQuery, search_relevance, matches_search_filters}
use directory.Search.Rank.{
  Ranked, ranks_before, with_relevance, rank_search_candidates, is_found, search_tools,
}
use directory.Search.Laws.{In-with_relevance}

-- No later element has a greater key.
abbrev pub Descending {ℓ} : {A : Type ℓ} → (A → ℕ) → List A → Type 0
Descending key [] = Unit
Descending key (a ∷ l) = All (λ b. key b ≤ key a) l × Descending key l

module _ {A : Type 0} (before : A → A → Bool) (key : A → ℕ)
    (front : (a b : A) → before a b ≡ true → key b ≤ key a)
    (back : (a b : A) → before a b ≡ false → key a ≤ key b) where
  All-lower : (m n : ℕ) (l : List A) → m ≤ n → All (λ b. key b ≤ m) l → All (λ b. key b ≤ n) l
  All-lower m n [] h k = tt
  All-lower m n (b ∷ l) h (k, ks) = (omega arith, All-lower m n l h ks)

  All-insert :
      (n : ℕ) (a : A) (l : List A)
      → key a ≤ n
      → All (λ b. key b ≤ n) l
      → All (λ b. key b ≤ n) (insert_by before a l)
  unfolding insert_by
  All-insert n a [] h k = (h, tt)
  All-insert n a (b ∷ l) h (k, ks) = elim (Bool-cases (before a b)) [
    | inl e ↦ rw e (h, (k, ks))
    | inr e ↦ rw e (k, All-insert n a l h ks)
  ]

  insert_by-Descending :
      (a : A) (l : List A) → Descending key l → Descending key (insert_by before a l)
  unfolding insert_by
  insert_by-Descending a [] h = (tt, tt)
  insert_by-Descending a (b ∷ l) (h, hs) = elim (Bool-cases (before a b)) [
    | inl e ↦ rw e ((front a b e, All-lower (key b) (key a) l (front a b e) h), (h, hs))
    | inr e ↦ rw e (All-insert (key b) a l (back a b e) h, insert_by-Descending a l hs)
  ]

  pub sort_by-Descending : (l : List A) → Descending key (sort_by before l)
  unfolding sort_by
  sort_by-Descending [] = tt
  sort_by-Descending (a ∷ l) = insert_by-Descending a (sort_by before l) (sort_by-Descending l)

All-take : {A : Type 0} (P : A → Type 0) (n : ℕ) (l : List A) → All P l → All P (take n l)
All-take P zero l h = tt
All-take P (suc n) [] h = tt
All-take P (suc n) (a ∷ l) (h, hs) = (h, All-take P n l hs)

take-Descending :
    {A : Type 0} (key : A → ℕ) (n : ℕ) (l : List A) → Descending key l → Descending key (take n l)
take-Descending key zero l h = tt
take-Descending key (suc n) [] h = tt
take-Descending key (suc n) (a ∷ l) (h, hs) =
    (All-take (λ b. key b ≤ key a) n l h, take-Descending key n l hs)

-- A key of the tools that is the items' relevance.
module _ (key : MemoryTool → ℕ) where
  abbrev HasKey : Ranked → Type 0
  HasKey r = key r.tool ≡ r.relevance

  All-tools :
      (n : ℕ) (l : List Ranked)
      → All HasKey l
      → All (λ (r : Ranked). r.relevance ≤ n) l
      → All (λ t. key t ≤ n) (map (λ (r : Ranked). r.tool) l)
  All-tools n [] k h = tt
  All-tools n (r ∷ l) (k, ks) (h, hs) = (rw k h, All-tools n l ks hs)

  tools-Descending :
      (l : List Ranked)
      → All HasKey l
      → Descending (λ (r : Ranked). r.relevance) l
      → Descending key (map (λ (r : Ranked). r.tool) l)
  tools-Descending [] k h = tt
  tools-Descending (r ∷ l) (k, ks) (h, hs) =
      (rw k (All-tools r.relevance l ks h), tools-Descending l ks hs)

In-All : {A : Type 0} (P : A → Type 0) (l : List A) → ((a : A) → In a l → P a) → All P l
In-All P [] f = tt
In-All P (a ∷ l) f = (f a (inl refl), In-All P l (λ b i. f b (inr i)))

ranks_before-front : (a b : Ranked) → ranks_before a b ≡ true → b.relevance ≤ a.relevance
unfolding ranks_before
ranks_before-front a b h = ground (arith, h)

ranks_before-back : (a b : Ranked) → ranks_before a b ≡ false → a.relevance ≤ b.relevance
unfolding ranks_before
ranks_before-back a b h = ground (arith, h)

module _ (fold : Text → Text) (is_word_char : ℕ → Bool) where
  abbrev pub relevance_of : Option Text → MemoryTool → ℕ
  relevance_of q t = or_else (search_relevance fold is_word_char t q) 0

  -- In the results of a search no tool stands behind one that is less relevant to the query.
  pub search_tools-Descending :
      (now : ℕ) (s : Store) (query : ToolSearchQuery)
      → Descending (relevance_of query.q) (search_tools fold is_word_char now s query)
  unfolding search_tools rank_search_candidates
  search_tools-Descending now s query =
      let tools = map (with_usage now s) (filter (is_found fold is_word_char query) s.tools) in
      let l =
        with_relevance fold is_word_char query.q
          (filter (λ (t : MemoryTool). matches_search_filters fold is_word_char t query) tools) in
      tools-Descending (relevance_of query.q) (take query.limit (sort_by ranks_before l))
        (All-take (HasKey (relevance_of query.q)) query.limit (sort_by ranks_before l) (
          In-All (HasKey (relevance_of query.q)) (sort_by ranks_before l) (λ r i.
            rw (In-with_relevance fold is_word_char query.q r _ (In-sort_by ranks_before r l i)).1
              refl)))
        (take-Descending (λ (r : Ranked). r.relevance) query.limit (sort_by ranks_before l)
          (sort_by-Descending ranks_before (λ (r : Ranked). r.relevance) ranks_before-front
            ranks_before-back l))
