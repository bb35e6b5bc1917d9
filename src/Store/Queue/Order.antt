-- ===== src/Store/Queue/Order.antt =====
-- Which tools a claim takes where there are more than its limit allows.
use directory.Common.{
  All, ℕ, zero, suc, ◌≤◌, ◌≡◌, refl, ap, ◌∙◌, inl, inr, true, false, some, List, [], ◌∷◌, arith, In,
  filter-In, length, take, ◌⊎◌, Option, none, or_else, length-map, filter, string_eq,
}
use directory.Common.Sort.{sort_by, sort_by-In, Sorted, sort_by-Sorted}
use directory.Types.{ToolStatus}
use directory.Types.Records.{MemoryTool}
use directory.Store.{Store}
use directory.Store.Queue.{is_past, is_due, comes_first, candidates, claim_tools_for_verification}
use directory.Store.Maps.{All-In, All-of}
use directory.Store.Queue.Laws.{ids_of, In-ids_of, ids_of-In, candidates-In}

-- Due for verification: in a status that is verified again (any but deprecated), with no lease that
-- is still running and no later time set for the next check.
abbrev pub IsDue : ℕ → MemoryTool → Type 0
IsDue now t =
    ((t.status ≡ ToolStatus.pending)
      ⊎ (t.status ≡ ToolStatus.active)
      ⊎ (t.status ≡ ToolStatus.degraded)
      ⊎ (t.status ≡ ToolStatus.suspended))
    × ((at : ℕ) → t.verify_lease_until ≡ some at → at ≤ now)
    × ((at : ℕ) → t.next_verify_at ≡ some at → at ≤ now)

is_past_of : (now : ℕ) (o : Option ℕ) → ((at : ℕ) → o ≡ some at → at ≤ now) → is_past now o ≡ true
is_past_of now none h = refl
is_past_of now (some at) h = let k = h at refl in ground arith

is_due_of_IsDue : (now : ℕ) (t : MemoryTool) → IsDue now t → is_due now t ≡ true
unfolding is_due
is_due_of_IsDue now t (status, lease, next) =
    let a = is_past_of now t.verify_lease_until lease in
    let b = is_past_of now t.next_verify_at next in
    rw (a, b)
      (elim status [
        | inl e ↦ rw e refl
        | inr (inl e) ↦ rw e refl
        | inr (inr (inl e)) ↦ rw e refl
        | inr (inr (inr e)) ↦ rw e refl
      ])

abbrev pub next_time : MemoryTool → ℕ
next_time t = or_else t.next_verify_at 0

comes_first_total : (a b : MemoryTool) → comes_first a b ≡ false → comes_first b a ≡ true
unfolding comes_first
comes_first_total a b h = ground arith

comes_first_trans :
    (a b c : MemoryTool) → comes_first a b ≡ true → comes_first b c ≡ true → comes_first a c ≡ true
unfolding comes_first
comes_first_trans a b c h k = ground arith

comes_first-next : (a b : MemoryTool) → comes_first a b ≡ true → next_time a ≤ next_time b
unfolding comes_first
comes_first-next a b h = ground arith

-- What the cut of a sorted list leaves out comes after the whole list that it keeps.
take-Sorted :
    (n : ℕ) (t : MemoryTool) (l : List MemoryTool)
    → Sorted comes_first l
    → In t l
    → In t (take n l)
      ⊎ ((length (take n l) ≡ n) × ((u : MemoryTool) → In u (take n l) → comes_first u t ≡ true))
take-Sorted zero t l w i = inr (refl, λ u h. elim h [ ])
take-Sorted (suc n) t [] w i = elim i [ ]
take-Sorted (suc n) t (a ∷ l) (b, w) (inl e) = inl (inl e)
take-Sorted (suc n) t (a ∷ l) (b, w) (inr i) = elim (take-Sorted n t l w i) [
  | inl k ↦ inl (inr k)
  | inr (len, first) ↦
      inr (ap suc len, λ u h. elim h [ inl e ↦ rw e (All-In _ l t b i) | inr k ↦ first u k ])
]

-- A tool that is due (pending, active, degraded or suspended, with no running lease and no later time
-- for its next check) is claimed, or else the claim returned as many tools as its limit allows, each
-- of them due no later than the one that was left out.
pub claim_complete :
    (now : ℕ) (s : Store) (limit lease_ms : ℕ) (t : MemoryTool)
    → In t s.tools
    → IsDue now t
    → let ids = (claim_tools_for_verification now s limit lease_ms).1 in
      In t.id ids
      ⊎ ((length ids ≡ limit)
          × All
              (λ id. (u : MemoryTool) × In u s.tools × (u.id ≡ id) × (next_time u ≤ next_time t))
              ids)
unfolding claim_tools_for_verification candidates
claim_complete now s limit lease_ms t i due =
    let l = sort_by comes_first (filter (is_due now) s.tools) in
    let sorted =
      sort_by-Sorted comes_first comes_first_total comes_first_trans
        (filter (is_due now) s.tools) in
    let listed =
      sort_by-In comes_first t _ (filter-In (is_due now) t s.tools i (is_due_of_IsDue now t due)) in
    elim (take-Sorted limit t l sorted listed) [
      | inl k ↦ inl (ids_of-In t (take limit l) k)
      | inr (len, first) ↦ inr (
        length-map (λ (u : MemoryTool). u.id) (take limit l) ∙ len,
        All-of _ (ids_of (take limit l)) (λ id h.
            let (u, j, e) = In-ids_of id (take limit l) h in
            (u, (candidates-In now s limit u j).0, e, comes_first-next u t (first u j))),
      )
    ]
