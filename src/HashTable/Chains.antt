-- ===== src/HashTable/Chains.antt =====
-- Sums over the pairs of a chain and of a table, by which the content of a table is told without
-- its order, and what the walks along a chain do to them.
use nginx_comment.Common.{
  ℕ, zero, suc, ◌+◌, ◌≤◌, ◌<◌, ◌≡◌, refl, Bool, none, some, List, [], ◌∷◌, arith, ◌==◌, ==_iff,
  if◌then◌else◌, get_or, set, length, replicate,
}
use nginx_comment.HashTable.{Pair, Chain, find, replace}

-- The sum of a weight over a chain, and over a table.
abbrev pub weight : (Pair → ℕ) → Chain → ℕ
weight w [] = 0
weight w (p ∷ c) = w p + weight w c

abbrev pub total : (Pair → ℕ) → List Chain → ℕ
total w [] = 0
total w (c ∷ t) = weight w c + total w t

-- Whether a pair has the key `k`, and the value that it gives to `k`.
abbrev pub one : ℕ → Pair → ℕ
one k p = if k == p.key then 1 else 0

abbrev pub given : ℕ → Pair → ℕ
given k p = if k == p.key then p.value else 0

abbrev pub unit : Pair → ℕ
unit p = 1

-- The function that compares keys decides their equality.
abbrev pub Equal : (ℕ → ℕ → Bool) → Type 0
Equal equal = (a b : ℕ) → equal a b ≡ (a == b)

pub given-one : (k : ℕ) (c : Chain) → weight (one k) c ≡ 0 → weight (given k) c ≡ 0
given-one k [] h = refl
given-one k (p ∷ c) h = ground (arith, given-one k c)

pub total-given-one : (k : ℕ) (t : List Chain) → total (one k) t ≡ 0 → total (given k) t ≡ 0
total-given-one k [] h = refl
total-given-one k (c ∷ t) h = ground (arith, given-one k c, total-given-one k t)

pub weight-get_or : (w : Pair → ℕ) (t : List Chain) (i : ℕ) → weight w (get_or t i []) ≤ total w t
weight-get_or w [] i = omega arith
weight-get_or w (c ∷ t) zero = omega arith
weight-get_or w (c ∷ t) (suc i) = omega (arith, weight-get_or w t i)

-- Where all pairs with a key are in one chain, that chain gives the key all its values.
pub given_at :
    (k : ℕ) (t : List Chain) (i : ℕ)
    → weight (one k) (get_or t i []) ≡ total (one k) t
    → weight (given k) (get_or t i []) ≡ total (given k) t
given_at k [] i h = refl
given_at k (c ∷ t) zero h = omega (arith, total-given-one k t (omega arith))
given_at k (c ∷ t) (suc i) h =
    let le = weight-get_or (one k) t i in
    omega (arith, given_at k t i (omega arith), given-one k c (omega arith))

pub total-set :
    (w : Pair → ℕ) (t : List Chain) (i : ℕ) (c : Chain)
    → i < length t
    → total w (set t i c) + weight w (get_or t i []) ≡ total w t + weight w c
total-set w [] i c h = omega arith
total-set w (d ∷ t) zero c h = omega arith
total-set w (d ∷ t) (suc i) c h = omega (arith, total-set w t i c (omega arith))

-- A chain of the same weight in the place of another leaves every chain its weight.
pub weight-set :
    (w : Pair → ℕ) (t : List Chain) (i m : ℕ) (c : Chain)
    → weight w c ≡ weight w (get_or t i [])
    → weight w (get_or (set t i c) m []) ≡ weight w (get_or t m [])
weight-set w [] i m c h = refl
weight-set w (d ∷ t) zero zero c h = h
weight-set w (d ∷ t) zero (suc m) c h = refl
weight-set w (d ∷ t) (suc i) zero c h = refl
weight-set w (d ∷ t) (suc i) (suc m) c h = weight-set w t i m c h

pub total-replicate : (w : Pair → ℕ) (n : ℕ) → total w (replicate n []) ≡ 0
total-replicate w zero = refl
total-replicate w (suc n) = omega (arith, total-replicate w n)

module _ (equal : ℕ → ℕ → Bool) (law : Equal equal) where
  pub find-given : (k : ℕ) (c : Chain) → weight (one k) c ≤ 1 → find equal k c ≡ weight (given k) c
  unfolding find
  find-given k [] h = refl
  find-given k (p ∷ c) h = ground (arith, law k p.key, find-given k c, given-one k c)

  pub replace-none : (k v : ℕ) (c : Chain) → replace equal k v c ≡ none → weight (one k) c ≡ 0
  unfolding replace
  replace-none k v [] h = refl
  replace-none k v (p ∷ c) h = ground (arith, law p.key k, replace-none k v c)

  -- A pair that is overwritten keeps its key, and every other pair is as it was.
  pub replace-weight :
      (k v : ℕ) (w : Pair → ℕ) (c d : Chain)
      → replace equal k v c ≡ some d
      → ((p : Pair) → p.key ≡ k → w p ≡ w (record { key = k; value = v }))
      → weight w d ≡ weight w c
  unfolding replace
  replace-weight k v w [] d h same = ground arith
  replace-weight k v w (p ∷ c) d h same =
      grind (arith, law p.key k, ==_iff p.key k, replace-weight k v w c)

  pub replace-given :
      (k v : ℕ) (c d : Chain)
      → replace equal k v c ≡ some d
      → weight (one k) c ≤ 1
      → weight (given k) d ≡ v
  unfolding replace
  replace-given k v [] d h le = ground arith
  replace-given k v (p ∷ c) d h le = grind (
    arith,
    law p.key k,
    ==_iff p.key k,
    ==_iff k p.key,
    ==_iff k k,
    given-one k c,
    replace-given k v c,
  )
