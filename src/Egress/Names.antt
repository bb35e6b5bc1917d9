-- ===== src/Egress/Names.antt =====
-- Host names of src/security/url.ts, as descriptions of texts.
use directory.Common.{
  ℕ, ◌≡◌, ◌≢◌, ◌↔◌, ◌⊎◌, inl, inr, refl, sym, ap, ap₂, subst, ◌∙◌, nat_eq, nat_beq_iff, true, false,
  [], ◌∷◌, ◌++◌, arith, text_eq, text_beq_iff, Text, codes, Bool-cases, ◌==◌,
}
use directory.Slug.{to_lower_case}
use directory.Egress.{Url, ends_with, drop_last_dot, hostname_of, is_local_hostname}

-- `host` is the text in small letters, less one dot at its end where it has one.
abbrev pub IsHostName : Text → Text → Type 0
IsHostName t host =
    (to_lower_case t ≡ host ++ codes ".")
    ⊎ ((to_lower_case t ≡ host) × ((s : Text) → host ≢ s ++ codes "."))

-- localhost itself, or a name under one of the three local domains.
abbrev pub IsLocalName : Text → Type 0
IsLocalName h =
    (h ≡ codes "localhost")
    ⊎ (s : Text) × ((h ≡ s ++ codes ".localhost")
        ⊎ (h ≡ s ++ codes ".local")
        ⊎ (h ≡ s ++ codes ".internal"))

ends_with_nil : (s p : Text) → [] ≡ s ++ p → p ≡ []
ends_with_nil [] p e = cc
ends_with_nil (c ∷ s) p e = cc

ends_with_of : (s t p : Text) → t ≡ s ++ p → ends_with t p ≡ true
ends_with_of s [] p e = let q = ends_with_nil s p e in (text_beq_iff [] p).1 (cc)
ends_with_of [] (c ∷ t) p e = let k = (text_beq_iff (c ∷ t) p).1 e in ground arith
ends_with_of (d ∷ s) (c ∷ t) p e =
    let tails : t ≡ s ++ p = cc in let k = ends_with_of s t p tails in ground arith

ends_with_iff : (t p : Text) → (ends_with t p ≡ true) ↔ ((s : Text) × (t ≡ s ++ p))
ends_with_iff [] p = (λ h. ([], (text_beq_iff [] p).0 h), λ (s, e). ends_with_of s [] p e)
ends_with_iff (c ∷ t) p = (
  λ h. elim (Bool-cases (c ∷ t == p)) [
    | inl e ↦ ([], (text_beq_iff (c ∷ t) p).0 e)
    | inr e ↦ let (s, q) = (ends_with_iff t p).0 (ground arith) in (c ∷ s, ap (λ r. c ∷ r) q)
  ],
  λ (s, e). ends_with_of s (c ∷ t) p e,
)

pub is_local_hostname_iff : (h : Text) → (is_local_hostname h ≡ true) ↔ IsLocalName h
unfolding is_local_hostname
is_local_hostname_iff h = ground (
  arith,
  text_beq_iff h (codes "localhost"),
  ends_with_iff h (codes ".localhost"),
  ends_with_iff h (codes ".local"),
  ends_with_iff h (codes ".internal"),
)

abbrev Undotted : Text → Type 0
Undotted t = (s : Text) → t ≢ s ++ codes "."

nil-Undotted : Undotted []
nil-Undotted s e = let k = ends_with_nil s (codes ".") e in cc

single-Undotted : (c : ℕ) → (c == b'.') ≡ false → Undotted (c ∷ [])
single-Undotted c h [] e = let same : c ≡ b'.' = cc in let k = (nat_beq_iff c b'.').1 same in cc
single-Undotted c h (d ∷ s) e = nil-Undotted s (cc)

cons-Undotted : (c d : ℕ) (t : Text) → Undotted (d ∷ t) → Undotted (c ∷ d ∷ t)
cons-Undotted c d t u [] e = cc
cons-Undotted c d t u (x ∷ s) e = u s (cc)

drop_last_dot-cases :
    (t : Text) → (t ≡ drop_last_dot t ++ codes ".") ⊎ ((t ≡ drop_last_dot t) × Undotted t)
unfolding drop_last_dot
drop_last_dot-cases [] = inr (refl, nil-Undotted)
drop_last_dot-cases (c ∷ []) = elim (Bool-cases (c == b'.')) [
  | inl e ↦ let same = (nat_beq_iff c b'.').0 e in rw e (inl (ap (λ x. x ∷ []) same))
  | inr e ↦ rw e (inr (refl, single-Undotted c e))
]
drop_last_dot-cases (c ∷ d ∷ t) = elim (drop_last_dot-cases (d ∷ t)) [
  | inl e ↦ inl (ap (λ r. c ∷ r) e)
  | inr (e, u) ↦ inr (ap (λ r. c ∷ r) e, cons-Undotted c d t u)
]

snoc-injective : (c : ℕ) (s t : Text) → s ++ c ∷ [] ≡ t ++ c ∷ [] → s ≡ t
snoc-injective c [] [] e = refl
snoc-injective c [] (x ∷ t) e = absurd (let k = ends_with_nil t (c ∷ []) (cc) in cc)
snoc-injective c (y ∷ s) [] e =
    absurd (let q : [] ≡ s ++ c ∷ [] = cc in let k = ends_with_nil s (c ∷ []) q in cc)
snoc-injective c (y ∷ s) (x ∷ t) e =
    let tails : s ++ c ∷ [] ≡ t ++ c ∷ [] = cc in
    let heads : y ≡ x = cc in ap₂ (λ a b. a ∷ b) heads (snoc-injective c s t tails)

drop_last_dot_iff :
    (t host : Text)
    → (drop_last_dot t ≡ host) ↔ ((t ≡ host ++ codes ".") ⊎ ((t ≡ host) × Undotted host))
drop_last_dot_iff t host = (
  λ h.
      rw (← h)
        (elim (drop_last_dot-cases t) [ inl e ↦ inl e | inr (e, u) ↦ inr (e, subst Undotted e u) ]),
  λ h. elim h [
    | inl e ↦ elim (drop_last_dot-cases t) [
      | inl f ↦ snoc-injective b'.' (drop_last_dot t) host (sym f ∙ e)
      | inr (f, u) ↦ absurd (u host e)
    ]
    | inr (e, u) ↦ elim (drop_last_dot-cases t) [
      | inl f ↦ absurd (u (drop_last_dot t) (sym e ∙ f))
      | inr (f, v) ↦ sym f ∙ e
    ]
  ],
)

pub hostname_of_iff : (u : Url) (host : Text) → (hostname_of u ≡ host) ↔ IsHostName u.hostname host
unfolding hostname_of
hostname_of_iff u host = drop_last_dot_iff (to_lower_case u.hostname) host
