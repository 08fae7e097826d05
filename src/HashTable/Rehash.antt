-- ===== src/HashTable/Rehash.antt =====
-- The growth of a table moves every pair into the chain of its hash, and loses and doubles none.
use nginx_comment.Common.{
  ℕ, zero, suc, ◌+◌, ◌%◌, ◌<◌, ◌≡◌, ◌≢◌, refl, sym, ap, ◌∙◌, List, [], ◌∷◌, arith, ◌==◌, ==_iff,
  get_or, set, length, replicate, length-set, get_or-set_self, get_or-set_ne, length-replicate,
  Bool-cases, inl, inr,
}
use mathlib.Core.Bool.{true≢false}
use nginx_comment.HashTable.{Pair, Chain, put, rehash_chain, rehash}
use nginx_comment.HashTable.Chains.{weight, total, one, total-set, total-replicate}

pub get_or-replicate : (n i : ℕ) → get_or {A = Chain} (replicate n []) i [] ≡ []
get_or-replicate zero i = refl
get_or-replicate (suc n) zero = refl
get_or-replicate (suc n) (suc i) = get_or-replicate n i

module _ (hash : ℕ → ℕ) (size : ℕ) (positive : 0 < size) where
  pub length-put : (p : Pair) (t : List Chain) → length (put hash size p t) ≡ length t
  unfolding put
  length-put p t = length-set t _ _

  pub length-rehash_chain :
      (c : Chain) (t : List Chain) → length (rehash_chain hash size c t) ≡ length t
  unfolding rehash_chain
  length-rehash_chain [] t = refl
  length-rehash_chain (p ∷ c) t = length-rehash_chain c (put hash size p t) ∙ length-put p t

  pub total-put :
      (w : Pair → ℕ) (p : Pair) (t : List Chain)
      → length t ≡ size
      → total w (put hash size p t) ≡ w p + total w t
  unfolding put
  total-put w p t h =
      let i = hash p.key % size in
      let e = total-set w t i (p ∷ get_or t i []) (omega arith) in omega (arith, e)

  total-rehash_chain :
      (w : Pair → ℕ) (c : Chain) (t : List Chain)
      → length t ≡ size
      → total w (rehash_chain hash size c t) ≡ weight w c + total w t
  unfolding rehash_chain
  total-rehash_chain w [] t h = omega arith
  total-rehash_chain w (p ∷ c) t h =
      omega
        (arith, total-put w p t h, total-rehash_chain w c (put hash size p t) (length-put p t ∙ h))

  -- The number of pairs with the key `k` in the chain of its hash.
  unfoldable pub at_home : ℕ → List Chain → ℕ
  at_home k t = weight (one k) (get_or t (hash k % size) [])

  one_away : (k : ℕ) (p : Pair) → hash p.key % size ≢ hash k % size → one k p ≡ 0
  one_away k p h = elim (Bool-cases (k == p.key)) [
    | inl e ↦ absurd (h (ap (λ x. hash x % size) (sym ((==_iff k p.key).0 e))))
    | inr e ↦ rw e refl
  ]

  weight-set_self :
      (w : Pair → ℕ) (t : List Chain) (i j : ℕ) (c : Chain)
      → i ≡ j
      → i < length t
      → weight w (get_or (set t i c) j []) ≡ weight w c
  weight-set_self w t i j c e h = ap (weight w) (rw (sym e) (get_or-set_self t i c [] h))

  pub at_home-put :
      (k : ℕ) (p : Pair) (t : List Chain)
      → length t ≡ size
      → at_home k (put hash size p t) ≡ one k p + at_home k t
  unfolding put at_home
  at_home-put k p t h =
      let i = hash p.key % size in
      let j = hash k % size in
      let c = p ∷ get_or t i [] in
      elim (Bool-cases (i == j)) [
        | inl e ↦
            let ij = (==_iff i j).0 e in
            weight-set_self (one k) t i j c ij (omega arith)
            ∙ ap (λ x. one k p + weight (one k) (get_or t x [])) ij
        | inr e ↦
            let ne = (λ (ij : i ≡ j). true≢false (sym ((==_iff i j).1 ij) ∙ e)) in
            ap (weight (one k)) (get_or-set_ne t i j c [] ne) ∙ rw (one_away k p ne) (omega arith)
      ]

  at_home-rehash_chain :
      (k : ℕ) (c : Chain) (t : List Chain)
      → length t ≡ size
      → at_home k (rehash_chain hash size c t) ≡ weight (one k) c + at_home k t
  unfolding rehash_chain
  at_home-rehash_chain k [] t h = omega arith
  at_home-rehash_chain k (p ∷ c) t h = omega (
    arith,
    at_home-put k p t h,
    at_home-rehash_chain k c (put hash size p t) (length-put p t ∙ h),
  )

  -- Every pair of the old chains is in the chain of its hash in the new table.
  pub length-rehash : (old t : List Chain) → length (rehash hash size old t) ≡ length t
  unfolding rehash
  length-rehash [] t = refl
  length-rehash (c ∷ old) t =
      length-rehash old (rehash_chain hash size c t) ∙ length-rehash_chain c t

  total-rehash_onto :
      (w : Pair → ℕ) (old t : List Chain)
      → length t ≡ size
      → total w (rehash hash size old t) ≡ total w old + total w t
  unfolding rehash
  total-rehash_onto w [] t h = omega arith
  total-rehash_onto w (c ∷ old) t h = omega (
    arith,
    total-rehash_chain w c t h,
    total-rehash_onto w old (rehash_chain hash size c t) (length-rehash_chain c t ∙ h),
  )

  at_home-rehash_onto :
      (k : ℕ) (old t : List Chain)
      → length t ≡ size
      → at_home k (rehash hash size old t) ≡ total (one k) old + at_home k t
  unfolding rehash
  at_home-rehash_onto k [] t h = omega arith
  at_home-rehash_onto k (c ∷ old) t h = omega (
    arith,
    at_home-rehash_chain k c t h,
    at_home-rehash_onto k old (rehash_chain hash size c t) (length-rehash_chain c t ∙ h),
  )

  pub total-rehash :
      (w : Pair → ℕ) (old : List Chain)
      → total w (rehash hash size old (replicate size [])) ≡ total w old
  total-rehash w old = omega (
    arith,
    total-replicate w size,
    total-rehash_onto w old (replicate size []) (length-replicate {A = Chain} size []),
  )

  pub at_home-rehash :
      (k : ℕ) (old : List Chain)
      → at_home k (rehash hash size old (replicate size [])) ≡ total (one k) old
  unfolding at_home
  at_home-rehash k old =
      at_home-rehash_onto k old (replicate size []) (length-replicate {A = Chain} size [])
      ∙ rw (get_or-replicate size (hash k % size)) (omega arith)
