-- ===== src/Receipts/Protocol.antt =====
-- An outcome is written once, by whoever holds the token, and nothing changes it afterwards.
use directory.Common.{
  ℕ, String, ◌≡◌, ◌≢◌, ◌↔◌, refl, ap, ◌∙◌, true, false, Option, none, some, List, [], ◌∷◌, arith,
  ◌==◌, string_eq, is_some, Bool-cases, inl, inr,
}
use mathlib.Core.Option
use text.Mathlib.TextEquality.{eq_iff}
use directory.Store.Maps.{get-update_self, get-update_ne}
use directory.Store.{get}
use directory.Receipts.{
  Receipt, record_evaluation, Reported, recorded, already_reported, verdict, write_outcome,
  get_evaluation, record_outcome,
}

module _ {ℓ κ} {B : Type ℓ} {O : Type κ} where
  verdict-recorded :
      (r : Receipt B O) (hash : String)
      → (verdict (some r) hash ≡ recorded)
        ↔ ((r.outcome_token_hash ≡ hash) × (is_some r.outcome ≡ false))
  unfolding verdict
  verdict-recorded r hash = ground (arith, eq_iff r.outcome_token_hash hash)

  -- A report is recorded exactly when the receipt is there, the hash of the token matches and no
  -- outcome was reported before.
  pub record_outcome-recorded_iff :
      (id hash : String) (o : O) (at : ℕ) (l : List (Receipt B O))
      → ((record_outcome id hash o at l).1 ≡ recorded) ↔ (
          (r : Receipt B O) × (get_evaluation id l ≡ some r)
          × (r.outcome_token_hash ≡ hash)
          × (is_some r.outcome ≡ false))
  unfolding record_outcome
  record_outcome-recorded_iff id hash o at l = cases (get_evaluation id l)
    where
      cases :
          (found : Option (Receipt B O))
          → (verdict found hash ≡ recorded) ↔ (
              (r : Receipt B O) × (found ≡ some r)
              × (r.outcome_token_hash ≡ hash)
              × (is_some r.outcome ≡ false))
      cases none = (λ h. unfold verdict in cc, λ h. let g = h.1 in cc)
      cases (some r) = (
        λ h. let (p, q) = (verdict-recorded r hash).0 h in (r, refl, p, q),
        λ h.
            let g = h.1 in
            let same : r ≡ h.0 = cc in (verdict-recorded r hash).1 (rw same h.2, rw same h.3),
      )

  write-get_ne :
      (v : Reported) (id j : String) (o : O) (at : ℕ) (l : List (Receipt B O))
      → id ≢ j
      → get_evaluation j (write_outcome v id o at l) ≡ get_evaluation j l
  unfolding write_outcome get_evaluation
  write-get_ne recorded id j o at l n =
      get-update_ne (λ (r : Receipt B O). r.id) id j _ l n (λ a. refl)
  write-get_ne _ id j o at l n = refl

  write-get_self :
      (id : String) (o : O) (at : ℕ) (l : List (Receipt B O)) (r : Receipt B O)
      → get_evaluation id l ≡ some r
      → get_evaluation id (write_outcome recorded id o at l)
        ≡ some (record r { outcome = some o; outcome_reported_at = some at })
  unfolding write_outcome get_evaluation
  write-get_self id o at l r h =
      get-update_self (λ (r : Receipt B O). r.id) id _ l (λ a. refl) ∙ ap (Option.map _) h

  write_nothing :
      (v : Reported) (id : String) (o : O) (at : ℕ) (l : List (Receipt B O))
      → (v ≡ recorded → ⊥)
      → write_outcome v id o at l ≡ l
  unfolding write_outcome
  write_nothing recorded id o at l n = absurd (n refl)
  write_nothing _ id o at l n = refl

  -- A successful report sets the outcome and its time on its own receipt, and leaves every other
  -- receipt as it was.
  pub record_outcome-get :
      (id hash j : String) (o : O) (at : ℕ) (l : List (Receipt B O)) (r : Receipt B O)
      → get_evaluation id l ≡ some r
      → r.outcome_token_hash ≡ hash
      → is_some r.outcome ≡ false
      → (get_evaluation id (record_outcome id hash o at l).0
          ≡ some (record r { outcome = some o; outcome_reported_at = some at }))
        × (id ≢ j → get_evaluation j (record_outcome id hash o at l).0 ≡ get_evaluation j l)
  unfolding record_outcome
  record_outcome-get id hash j o at l r h q e =
      let v : verdict (get_evaluation id l) hash ≡ recorded =
        rw h ((verdict-recorded r hash).1 (q, e)) in
      (rw v (write-get_self id o at l r h), λ n. write-get_ne _ id j o at l n)

  -- Once a receipt has an outcome, no report, for whichever receipt and with whatever token,
  -- changes anything of that receipt.
  pub record_outcome_final :
      (id hash j : String) (o p : O) (at : ℕ) (l : List (Receipt B O)) (r : Receipt B O)
      → get_evaluation j l ≡ some r
      → r.outcome ≡ some p
      → get_evaluation j (record_outcome id hash o at l).0 ≡ some r
  unfolding record_outcome
  record_outcome_final id hash j o p at l r h e = elim (Bool-cases (id == j)) [
    | inl same ↦
        rw
          (write_nothing (verdict (get_evaluation id l) hash) id o at l
            (taken ((eq_iff id j).0 same)))
          h
    | inr other ↦ rw (write-get_ne (verdict (get_evaluation id l) hash) id j o at l (apart other)) h
  ]
    where
      apart : (id == j) ≡ false → id ≢ j
      apart f q = cc (f, (eq_iff id j).1 q)

      taken : id ≡ j → verdict (get_evaluation id l) hash ≡ recorded → ⊥
      taken q v =
          let g : verdict (some r) hash ≡ recorded = rw (q, h) at v in
          let s : is_some r.outcome ≡ false = ((verdict-recorded r hash).0 g).1 in
          let t : is_some r.outcome ≡ true = rw e refl in cc

  -- What was recorded is what is read back under its id, whatever stood there before.
  pub record_evaluation-get :
      (e : Receipt B O) (l : List (Receipt B O))
      → get_evaluation e.id (record_evaluation e l) ≡ some e
  unfolding record_evaluation get_evaluation get
  record_evaluation-get e [] = ground (arith, eq_iff e.id e.id)
  record_evaluation-get e (r ∷ l) = ground (arith, eq_iff e.id e.id, record_evaluation-get e l)

  -- A pending receipt takes the first report with the right hash, and no second one.
  pub record_outcome_once :
      (id hash : String) (o o' : O) (at at' : ℕ) (l : List (Receipt B O)) (r : Receipt B O)
      → get_evaluation id l ≡ some r
      → r.outcome_token_hash ≡ hash
      → is_some r.outcome ≡ false
      → ((record_outcome id hash o at l).1 ≡ recorded)
        × ((record_outcome id hash o' at' (record_outcome id hash o at l).0).1 ≡ already_reported)
  unfolding record_outcome
  record_outcome_once id hash o o' at at' l r h t free =
      let first : verdict (get_evaluation id l) hash ≡ recorded =
        rw h ((verdict-recorded r hash).1 (t, free)) in
      (first, rw first (rw (write-get_self id o at l r h) (spent t)))
    where
      spent :
          r.outcome_token_hash ≡ hash
          → verdict (some (record r { outcome = some o; outcome_reported_at = some at })) hash
            ≡ already_reported
      spent e = unfold verdict in ground (arith, eq_iff r.outcome_token_hash hash)
