-- ===== src/Risk/Latest.antt =====
-- What `latestChecks` keeps: one check of each type, and none of that type is later.
use directory.Common.{
  ◌≡◌, ◌≢◌, ◌⊎◌, refl, subst, inl, inr, Bool, true, false, Option, none, some, List, [], ◌∷◌, arith,
  In, Never, ◌==◌, if◌then◌else◌, Bool-cases,
}
use directory.Types.{CheckType, check_type_eq, check_type_beq_iff}
use directory.Types.Records.{VerificationCheckRecord}
use directory.Risk.Evidence.{later, record_latest, latest_from, latest_checks, latest_get}

-- `a` would be replaced by `b`.
abbrev pub NotLater : VerificationCheckRecord → VerificationCheckRecord → Type 0
NotLater b a = later b.checked_at a.checked_at ≡ false

-- The check that `set` leaves for the type of `c`, from what `get` gave.
abbrev newer : VerificationCheckRecord → Option VerificationCheckRecord → VerificationCheckRecord
newer c none = c
newer c (some e) = if later c.checked_at e.checked_at then c else e

same_type : (c : VerificationCheckRecord) → (c.check_type == c.check_type) ≡ true
same_type c = (check_type_beq_iff c.check_type c.check_type).1 refl

get_pick :
    (type : CheckType) (b : Bool) (c e : VerificationCheckRecord) (l : List VerificationCheckRecord)
    → (e.check_type == type) ≡ true
    → (c.check_type == type) ≡ true
    → latest_get type ((if b then c else e) ∷ l) ≡ some (if b then c else e)
get_pick type true c e l q r = rw r refl
get_pick type false c e l q r = rw q refl

get_skip :
    (type : CheckType) (b : Bool) (c e : VerificationCheckRecord) (l : List VerificationCheckRecord)
    → (e.check_type == type) ≡ false
    → (c.check_type == type) ≡ false
    → latest_get type ((if b then c else e) ∷ l) ≡ latest_get type l
get_skip type true c e l q r = rw r refl
get_skip type false c e l q r = rw q refl

get_here :
    (c : VerificationCheckRecord) (l : List VerificationCheckRecord)
    → latest_get c.check_type (record_latest c l) ≡ some (newer c (latest_get c.check_type l))
unfolding record_latest
get_here c [] = rw (same_type c) refl
get_here c (e ∷ l) = elim (Bool-cases (e.check_type == c.check_type)) [
  | inl q ↦ rw q (get_pick c.check_type (later c.checked_at e.checked_at) c e l q (same_type c))
  | inr q ↦ rw (q, q) (get_here c l)
]

get_other :
    (type : CheckType) (c : VerificationCheckRecord) (l : List VerificationCheckRecord)
    → (c.check_type == type) ≡ false
    → latest_get type (record_latest c l) ≡ latest_get type l
unfolding record_latest
get_other type c [] h = rw h refl
get_other type c (e ∷ l) h = elim (Bool-cases (e.check_type == c.check_type)) [
  | inl q ↦
      let same : e.check_type ≡ c.check_type = (check_type_beq_iff e.check_type c.check_type).0 q in
      let f : (e.check_type == type) ≡ false = rw same h in
      rw (q, f) (get_skip type (later c.checked_at e.checked_at) c e l f h)
  | inr q ↦ elim (Bool-cases (e.check_type == type)) [
    | inl r ↦ rw (q, r) refl
    | inr r ↦ rw (q, r) (get_other type c l h)
  ]
]

-- The entry of a type, after the checks that satisfy `S` were read: the check that stands for the
-- type, which no check of the type is later than; none only if no check has the type.
abbrev pub Best :
    (VerificationCheckRecord → Type 0) → CheckType → Option VerificationCheckRecord → Type 0
Best S type none = (d : VerificationCheckRecord) → S d → d.check_type ≢ type
Best S type (some c) =
    S c
    × (c.check_type ≡ type)
    × ((d : VerificationCheckRecord) → S d → d.check_type ≡ type → NotLater d c)

abbrev Or :
    (VerificationCheckRecord → Type 0) → VerificationCheckRecord → VerificationCheckRecord → Type 0
Or S c d = S d ⊎ (d ≡ c)

NotLater-self : (c : VerificationCheckRecord) → NotLater c c
NotLater-self c = ground arith

NotLater-trans :
    (d e c : VerificationCheckRecord)
    → NotLater d e
    → later c.checked_at e.checked_at ≡ true
    → NotLater d c
NotLater-trans d e c h k = ground arith

module _ (S : VerificationCheckRecord → Type 0) (c : VerificationCheckRecord) where
  Best-newer :
      (o : Option VerificationCheckRecord)
      → Best S c.check_type o
      → Best (Or S c) c.check_type (some (newer c o))
  Best-newer none h = (
    inr refl,
    refl,
    λ d s t. elim s [ inl old ↦ absurd (h d old t) | inr new ↦ rw new (NotLater-self c) ],
  )
  Best-newer (some e) (s, t, k) = elim (Bool-cases (later c.checked_at e.checked_at)) [
    | inl q ↦ rw q (
      inr refl,
      refl,
      λ d m u. elim m [
        | inl old ↦ NotLater-trans d e c (k d old u) q
        | inr new ↦ rw new (NotLater-self c)
      ],
    )
    | inr q ↦ rw q (inl s, t, λ d m u. elim m [ inl old ↦ k d old u | inr new ↦ rw new q ])
  ]

  Best-other :
      (type : CheckType) (o : Option VerificationCheckRecord)
      → c.check_type ≢ type
      → Best S type o
      → Best (Or S c) type o
  Best-other type none n h = λ d s t. elim s [ inl old ↦ h d old t | inr new ↦ n (rw (← new) t) ]
  Best-other type (some e) n (s, t, k) =
      (inl s, t, λ d m u. elim m [ inl old ↦ k d old u | inr new ↦ absurd (n (rw (← new) u)) ])

  Best-record :
      (l : List VerificationCheckRecord)
      → ((type : CheckType) → Best S type (latest_get type l))
      → (type : CheckType) → Best (Or S c) type (latest_get type (record_latest c l))
  Best-record l h type = elim (Bool-cases (c.check_type == type)) [
    | inl q ↦
        subst (λ ty. Best (Or S c) ty (latest_get ty (record_latest c l)))
          ((check_type_beq_iff c.check_type type).0 q)
          (rw (get_here c l) (Best-newer (latest_get c.check_type l) (h c.check_type)))
    | inr q ↦
        rw (get_other type c l q) (Best-other type (latest_get type l) (λ e. false_ne q e) (h type))
  ]
    where
      false_ne : (c.check_type == type) ≡ false → c.check_type ≡ type → ⊥
      false_ne q e = cc (q, (check_type_beq_iff c.check_type type).1 e)

Best-equiv :
    (S T : VerificationCheckRecord → Type 0) (type : CheckType) (o : Option VerificationCheckRecord)
    → ((d : VerificationCheckRecord) → S d → T d)
    → ((d : VerificationCheckRecord) → T d → S d)
    → Best S type o
    → Best T type o
Best-equiv S T type none f g h = λ d t. h d (g d t)
Best-equiv S T type (some c) f g (s, t, k) = (f c s, t, λ d u. k d (g d u))

latest_from-Best :
    (S : VerificationCheckRecord → Type 0) (checks l : List VerificationCheckRecord)
    → ((type : CheckType) → Best S type (latest_get type l))
    → (type : CheckType)
    → Best (λ d. S d ⊎ In d checks) type (latest_get type (latest_from l checks))
unfolding latest_from
latest_from-Best S [] l h type =
    Best-equiv S (λ d. S d ⊎ In d []) type (latest_get type l) (λ d s. inl s)
      (λ d t. elim t [ inl s ↦ s | inr n ↦ elim n [ ] ]) (h type)
latest_from-Best S (c ∷ checks) l h type =
    Best-equiv (λ d. Or S c d ⊎ In d checks) (λ d. S d ⊎ In d (c ∷ checks)) type
      (latest_get type (latest_from (record_latest c l) checks))
      (λ d t. elim t [ inl (inl s) ↦ inl s | inl (inr e) ↦ inr (inl e) | inr i ↦ inr (inr i) ])
      (λ d t. elim t [ inl s ↦ inl (inl s) | inr (inl e) ↦ inl (inr e) | inr (inr i) ↦ inr i ])
      (latest_from-Best (Or S c) checks (record_latest c l) (Best-record S c l h) type)

-- For every list of checks, whatever their order and with dates that are no dates among them: the
-- check that stands for a type is one of the list and of that type, no check of that type in the
-- list is later, and a type has no entry only if no check of the list has it.
pub latest_checks-Best :
    (checks : List VerificationCheckRecord) (type : CheckType)
    → Best (λ d. In d checks) type (latest_get type (latest_checks checks))
unfolding latest_checks
latest_checks-Best checks type =
    Best-equiv (λ d. Never ⊎ In d checks) (λ d. In d checks) type
      (latest_get type (latest_from [] checks)) (λ d t. elim t [ inl n ↦ elim n [ ] | inr i ↦ i ])
      (λ d i. inr i) (latest_from-Best (λ d. Never) checks [] (λ ty d n. elim n [ ]) type)
