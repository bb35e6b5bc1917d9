-- ===== src/Risk/Permissions.antt =====
-- The permissions of src/domain/risk-evaluation.ts, by what an action with them may do.
use directory.Common.{
  ◌≡◌, ◌↔◌, ◌⊎◌, true, false, List, arith, any, In, any-In, any-of-In, any-false, Bool, Bool-cases,
  inl, inr,
}
use directory.Risk.Terms.{Permission, permission_eq}
use directory.Risk.Decide.{is_unsupported, is_elevated}

-- The permissions that block an action.
abbrev pub IsHighRisk : Permission → Type 0
IsHighRisk p =
    (p ≡ Permission.local_files_write)
    ⊎ (p ≡ Permission.credentials)
    ⊎ (p ≡ Permission.code_execution)
    ⊎ (p ≡ Permission.payments)
    ⊎ (p ≡ Permission.destructive_actions)

is_unsupported_iff : (p : Permission) → (is_unsupported p ≡ true) ↔ IsHighRisk p
is_unsupported_iff p = ground arith

pub IsHighRisk-iff :
    (l : List Permission)
    → (any is_unsupported l ≡ true) ↔ ((p : Permission) × In p l × IsHighRisk p)
IsHighRisk-iff l = (
  λ h. let (p, i, e) = any-In is_unsupported l h in (p, i, (is_unsupported_iff p).0 e),
  λ (p, i, e). any-of-In is_unsupported p l i ((is_unsupported_iff p).1 e),
)

pub is_public_iff :
    (p : Permission)
    → ((is_unsupported p ≡ false) × (is_elevated p ≡ false)) ↔ (p ≡ Permission.public_network)
is_public_iff p = ground arith

pub any_none :
    (test : Permission → Bool) (l : List Permission)
    → ((p : Permission) → In p l → test p ≡ false)
    → any test l ≡ false
any_none test l h = elim (Bool-cases (any test l)) [
  | inl e ↦ let (p, i, q) = any-In test l e in let k = h p i in cc
  | inr e ↦ e
]

pub only_public_of :
    (l : List Permission)
    → any is_unsupported l ≡ false
    → any is_elevated l ≡ false
    → (p : Permission) → In p l
    → p ≡ Permission.public_network
only_public_of l h k p i =
    (is_public_iff p).0 (any-false is_unsupported p l h i, any-false is_elevated p l k i)
