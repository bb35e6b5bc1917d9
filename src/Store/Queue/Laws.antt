-- ===== src/Store/Queue/Laws.antt =====
-- The lease of the verification queue.
use directory.Common.{
  ℕ, zero, suc, ◌+◌, ◌*◌, ◌^◌, min, ◌≤◌, ◌<◌, ◌≡◌, refl, sym, ap, ap₂, ◌∙◌, inl, inr, String, true,
  false, some, List, [], ◌∷◌, map, arith, In, In-filter, In-take, if◌then◌else◌, Bool-cases,
  string_eq, includes,
}
use directory.Common.Sort.{In-sort_by}
use text.Mathlib.TextEquality.{eq_iff}
use directory.Types.Records.{MemoryTool}
use directory.Store.{Store, update}
use directory.Store.Queue.{
  is_due, comes_first, candidates, lease_all, claim_tools_for_verification, next_verify_backoff_ms,
  base_backoff_ms,
}

-- The powers that the backoff meets.
pow_step : (n : ℕ) → (2 ^ (min n 8) ≤ 256) × (2 ^ (min n 8) ≤ 2 ^ (min (n + 1) 8))
pow_step zero = omega arith
pow_step (suc zero) = omega arith
pow_step (suc (suc zero)) = omega arith
pow_step (suc (suc (suc zero))) = omega arith
pow_step (suc (suc (suc (suc zero)))) = omega arith
pow_step (suc (suc (suc (suc (suc zero))))) = omega arith
pow_step (suc (suc (suc (suc (suc (suc zero)))))) = omega arith
pow_step (suc (suc (suc (suc (suc (suc (suc zero))))))) = omega arith
pow_step (suc (suc (suc (suc (suc (suc (suc (suc n)))))))) =
    let m : ℕ = suc (suc (suc (suc (suc (suc (suc (suc n))))))) in
    let e : min m 8 ≡ 8 = omega arith in
    let f : min (m + 1) 8 ≡ 8 = omega arith in rw (e, f) (omega arith)

-- The wait after n failures is five minutes times 2 ^ min n 8, so the cap of 24 hours never
-- applies; and it never falls as failures are added.
pub next_verify_backoff_ms-eq :
    (n : ℕ)
    → (next_verify_backoff_ms n ≡ base_backoff_ms * 2 ^ (min n 8))
      × (next_verify_backoff_ms n ≤ next_verify_backoff_ms (n + 1))
unfolding next_verify_backoff_ms
next_verify_backoff_ms-eq n = ground (arith, pow_step n)

abbrev pub ids_of : List MemoryTool → List String
ids_of l = map (λ (t : MemoryTool). t.id) l

abbrev pub leased : ℕ → List String → MemoryTool → MemoryTool
leased until ids t = if includes ids t.id then record t { verify_lease_until = some until } else t

map-update :
    (until : ℕ) (ids : List String) (k : String) (l : List MemoryTool)
    → map
        (leased until ids)
        (update (λ (t : MemoryTool). t.id) k (λ u. record u { verify_lease_until = some until }) l)
      ≡ map (leased until (k ∷ ids)) l
unfolding update
map-update until ids k [] = refl
map-update until ids k (t ∷ l) =
    ap₂ (λ a b. a ∷ b) (ground (arith, eq_iff k t.id, eq_iff t.id k)) (map-update until ids k l)

map-id {ℓ} : {A : Type ℓ} (l : List A) → map (λ a. a) l ≡ l
map-id [] = refl
map-id (a ∷ l) = ap (λ r. a ∷ r) (map-id l)

lease_all-tools :
    (until : ℕ) (l : List MemoryTool) (s : Store)
    → (lease_all until l s).tools ≡ map (leased until (ids_of l)) s.tools
unfolding lease_all
lease_all-tools until [] s = sym (map-id s.tools)
lease_all-tools until (t ∷ l) s =
    lease_all-tools until l _ ∙ map-update until (ids_of l) t.id s.tools

-- What a claim does to the tools: the claimed ones are leased, the others unchanged.
pub claim-tools :
    (now : ℕ) (s : Store) (limit lease_ms : ℕ)
    → (claim_tools_for_verification now s limit lease_ms).0.tools
      ≡ map (leased (now + lease_ms) (claim_tools_for_verification now s limit lease_ms).1) s.tools
unfolding claim_tools_for_verification
claim-tools now s limit lease_ms = lease_all-tools (now + lease_ms) (candidates now s limit) s

pub In-ids_of :
    (id : String) (l : List MemoryTool) → In id (ids_of l) → (t : MemoryTool) × In t l × (t.id ≡ id)
In-ids_of id [] h = elim h [ ]
In-ids_of id (t ∷ l) (inl e) = (t, inl refl, sym e)
In-ids_of id (t ∷ l) (inr h) = let (u, i, e) = In-ids_of id l h in (u, inr i, e)

pub ids_of-In : (t : MemoryTool) (l : List MemoryTool) → In t l → In t.id (ids_of l)
ids_of-In t [] h = elim h [ ]
ids_of-In t (u ∷ l) (inl e) = inl (ap (λ (v : MemoryTool). v.id) e)
ids_of-In t (u ∷ l) (inr h) = inr (ids_of-In t l h)

pub includes_of_In : (id : String) (l : List String) → In id l → includes l id ≡ true
includes_of_In id [] h = elim h [ ]
includes_of_In id (j ∷ l) (inl e) = ground (arith, eq_iff j id)
includes_of_In id (j ∷ l) (inr h) = ground (arith, includes_of_In id l h)

pub candidates-In :
    (now : ℕ) (s : Store) (limit : ℕ) (t : MemoryTool)
    → In t (candidates now s limit)
    → In t s.tools × (is_due now t ≡ true)
unfolding candidates
candidates-In now s limit t h =
    In-filter (is_due now) t s.tools (In-sort_by comes_first t _ (In-take limit t _ h))

pub In-map-leased :
    (until : ℕ) (ids : List String) (t : MemoryTool) (l : List MemoryTool)
    → In t (map (leased until ids) l)
    → includes ids t.id ≡ true
    → t.verify_lease_until ≡ some until
In-map-leased until ids t [] h q = elim h [ ]
In-map-leased until ids t (u ∷ l) (inl e) q = elim (Bool-cases (includes ids u.id)) [
  | inl w ↦ rw (e, w) refl
  | inr w ↦ let k : false ≡ true = rw (e, w, w) at q in cc
]
In-map-leased until ids t (u ∷ l) (inr h) q = In-map-leased until ids t l h q

-- Every id that a claim returns is the id of a stored tool that was due at that time.
pub claim_sound :
    (now : ℕ) (s : Store) (limit lease_ms : ℕ) (id : String)
    → In id (claim_tools_for_verification now s limit lease_ms).1
    → (t : MemoryTool) × In t s.tools × (t.id ≡ id) × (is_due now t ≡ true)
unfolding claim_tools_for_verification
claim_sound now s limit lease_ms id h =
    let (t, i, e) = In-ids_of id (candidates now s limit) h in
    let (j, due) = candidates-In now s limit t i in (t, j, e, due)

pub not_due_of_lease :
    (now until : ℕ) (t : MemoryTool)
    → now < until
    → t.verify_lease_until ≡ some until
    → is_due now t ≡ true
    → ⊥
unfolding is_due
not_due_of_lease now until t h e d = ground arith
