-- ===== src/Egress/Bodies.antt =====
-- How much of a response is read.
use directory.Common.{
  ℕ, ◌+◌, ◌≤◌, ◌≡◌, ◌↔◌, true, List, [], ◌∷◌, ◌++◌, arith, length, ltb, is_some, Bool-cases, inl,
  inr,
}
use directory.Egress.Fetch.{read_chunks, read_body_limited}
use directory.Egress.Proxy.{forward_chunks}

-- The bytes of a body.
abbrev pub total : List (List ℕ) → ℕ
total [] = 0
total (c ∷ cs) = length c + total cs

read_chunks-some_iff :
    (limit received : ℕ) (bytes : List ℕ) (cs : List (List ℕ))
    → received ≤ limit
    → (is_some (read_chunks limit received bytes cs) ≡ true) ↔ (received + total cs ≤ limit)
unfolding read_chunks
read_chunks-some_iff limit received bytes [] h = ground arith
read_chunks-some_iff limit received bytes (c ∷ cs) h =
    elim (Bool-cases (ltb limit (received + length c))) [
      | inl e ↦ rw e (ground arith)
      | inr e ↦
          let fits : received + length c ≤ limit = ground arith in
          let deep = read_chunks-some_iff limit (received + length c) (bytes ++ c) cs fits in
          rw e (ground (arith, deep))
    ]

-- A body is read exactly when it has no more bytes than the limit, however it arrives in chunks.
pub read_body_limited-some_iff :
    (limit : ℕ) (chunks : List (List ℕ))
    → (is_some (read_body_limited limit chunks) ≡ true) ↔ (total chunks ≤ limit)
unfolding read_body_limited
read_body_limited-some_iff limit chunks =
    let k = read_chunks-some_iff limit 0 [] chunks (omega arith) in ground (arith, k)

-- The browser never gets more of a response than the limit.
pub forward_chunks-total :
    (limit received : ℕ) (cs : List (List ℕ))
    → received ≤ limit
    → received + total (forward_chunks limit received cs) ≤ limit
unfolding forward_chunks
forward_chunks-total limit received [] h = omega arith
forward_chunks-total limit received (c ∷ cs) h =
    elim (Bool-cases (ltb limit (received + length c))) [
      | inl e ↦ rw e (omega arith)
      | inr e ↦
          let fits : received + length c ≤ limit = ground arith in
          let deep = forward_chunks-total limit (received + length c) cs fits in rw e (omega arith)
    ]
