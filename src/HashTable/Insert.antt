-- ===== src/HashTable/Insert.antt =====
-- `ngx_hash_table_insert`: one key has the new value, and no other key a new one.
use nginx_comment.Common.{
  ℕ, suc, ◌+◌, ◌%◌, ◌^◌, ◌≤◌, ◌<◌, ◌≡◌, ◌≢◌, refl, sym, ap, ◌∙◌, Bool, true, false, none, some, [],
  arith, ◌==◌, ==_iff, if◌then◌else◌, get_or, set, length, length-set, Option-cases, Bool-cases,
  inl, inr,
}
use mathlib.Core.Bool.{true≢false}
use nginx_comment.HashTable.{Pair, Chain, HashTable, u64, put, replace, insert_here, lookup}
use nginx_comment.HashTable.Chains.{
  weight, total, one, given, unit, given_at, total-given-one, total-set, weight-set, replace-none,
  replace-weight, replace-given,
}
use nginx_comment.HashTable.Rehash.{at_home, length-put, total-put, at_home-put}
use nginx_comment.HashTable.Lookup.{IsValid, lookup-given}

-- A value that is one thing at the key, and another away from it.
at_key : (j k x v y : ℕ) → (j ≡ k → x ≡ v) → (j ≢ k → x ≡ y) → x ≡ (if j == k then v else y)
at_key j k x v y h g = elim (Bool-cases (j == k)) [
  | inl e ↦ rw e (h ((==_iff j k).0 e))
  | inr e ↦ rw e (g (λ p. true≢false (sym ((==_iff j k).1 p) ∙ e)))
]

-- An insertion that does not have to grow the table.
module _ (k v : ℕ) (t : HashTable) (valid : IsValid t) where
  index : ℕ
  index = t.hash_func k % t.table_size

  home : Chain
  unfolding index
  home = get_or t.table index []

  home_counts : weight (one k) home ≡ total (one k) t.table
  unfolding home index
  home_counts = valid.placed k

  home_gives : weight (given k) home ≡ total (given k) t.table
  unfolding home index
  home_gives = given_at k t.table index (valid.placed k)

  index_small : index < length t.table
  unfolding index
  index_small = rw (valid.sized) (omega (arith, valid.positive))

  -- The key was there: its pair is overwritten.
  module _ (c : Chain) (h : replace t.equal_func k v home ≡ some c) where
    overwritten : HashTable
    overwritten = record t { table = set t.table index c }

    overwritten_weight :
        (w : Pair → ℕ)
        → ((p : Pair) → p.key ≡ k → w p ≡ w (record { key = k; value = v }))
        → weight w c ≡ weight w home
    overwritten_weight w = replace-weight t.equal_func (valid.decides) k v w home c h

    overwritten_total :
        (w : Pair → ℕ)
        → ((p : Pair) → p.key ≡ k → w p ≡ w (record { key = k; value = v }))
        → total w (set t.table index c) ≡ total w t.table
    unfolding home
    overwritten_total w same =
        let e = total-set w t.table index c index_small in
        omega (arith, e, overwritten_weight w same)

    same_one : (j : ℕ) (p : Pair) → p.key ≡ k → one j p ≡ one j (record { key = k; value = v })
    same_one j p e = ap (λ x. if j == x then 1 else 0) e

    overwritten-IsValid : IsValid overwritten
    unfolding overwritten index home
    overwritten-IsValid = record {
      decides = valid.decides;
      sized = length-set t.table index c ∙ valid.sized;
      positive = valid.positive;
      placed = λ j.
          weight-set (one j) t.table index (t.hash_func j % t.table_size) c
            (overwritten_weight (one j) (same_one j))
          ∙ valid.placed j
          ∙ sym (overwritten_total (one j) (same_one j));
      single = λ j. rw (overwritten_total (one j) (same_one j)) (valid.single j);
      counted = valid.counted ∙ sym (overwritten_total unit (λ _ _. refl));
    }

    overwritten_self : total (given k) (set t.table index c) ≡ v
    unfolding home
    overwritten_self =
        let e = total-set (given k) t.table index c index_small in
        let le : weight (one k) home ≤ 1 = rw home_counts (valid.single k) in
        omega (arith, e, home_gives, replace-given t.equal_func (valid.decides) k v home c h le)

    same_given :
        (j : ℕ) (p : Pair) → j ≢ k → p.key ≡ k → given j p ≡ given j (record { key = k; value = v })
    same_given j p ne e = grind (arith, ==_iff j k, ==_iff j p.key)

    overwritten_other :
        (j : ℕ) → j ≢ k → total (given j) (set t.table index c) ≡ total (given j) t.table
    overwritten_other j ne = overwritten_total (given j) (λ p. same_given j p ne)

    overwritten-lookup : (j : ℕ) → lookup j overwritten ≡ (if j == k then v else lookup j t)
    unfolding overwritten home
    overwritten-lookup j =
        lookup-given j overwritten overwritten-IsValid
        ∙ at_key j k _ v _ (λ e. rw e overwritten_self)
            (λ ne. overwritten_other j ne ∙ sym (lookup-given j t valid))

  -- The key was not there: a pair is put before the others.
  added : HashTable
  added = record t {
    table = put t.hash_func t.table_size (record { key = k; value = v }) t.table;
    entries = u64 (suc t.entries);
  }

  module _ (h : replace t.equal_func k v home ≡ none) (few : suc t.entries < 2 ^ 60) where
    absent : total (one k) t.table ≡ 0
    absent = sym home_counts ∙ replace-none t.equal_func (valid.decides) k v home h

    added_total :
        (w : Pair → ℕ) → total w added.table ≡ w (record { key = k; value = v }) + total w t.table
    unfolding added
    added_total w = total-put t.hash_func t.table_size valid.positive w _ t.table valid.sized

    added_single : (j : ℕ) → one j (record { key = k; value = v }) + total (one j) t.table ≤ 1
    added_single j = grind (arith, ==_iff j k, absent, valid.single j)

    added-IsValid : IsValid added
    unfolding added at_home
    added-IsValid = record {
      decides = valid.decides;
      sized =
          length-put t.hash_func t.table_size valid.positive (record { key = k; value = v }) t.table
          ∙ valid.sized;
      positive = valid.positive;
      placed = λ j.
          at_home-put t.hash_func t.table_size valid.positive j (record { key = k; value = v })
            t.table valid.sized
          ∙ ap (λ x. one j (record { key = k; value = v }) + x) (valid.placed j)
          ∙ sym (added_total (one j));
      single = λ j. rw (added_total (one j)) (added_single j);
      counted = omega (arith, valid.counted, added_total unit);
    }

    added_self :
        (j : ℕ) → j ≡ k → given j (record { key = k; value = v }) + total (given j) t.table ≡ v
    added_self j e = grind (arith, ==_iff j k, absent, total-given-one k t.table)

    added_other :
        (j : ℕ)
        → j ≢ k
        → given j (record { key = k; value = v }) + total (given j) t.table
          ≡ total (given j) t.table
    added_other j ne = grind (arith, ==_iff j k)

    added-lookup : (j : ℕ) → lookup j added ≡ (if j == k then v else lookup j t)
    unfolding added
    added-lookup j =
        lookup-given j added added-IsValid
        ∙ added_total (given j)
        ∙ at_key j k _ v _ (λ e. added_self j e)
            (λ ne. added_other j ne ∙ sym (lookup-given j t valid))

  -- The three ways that the call can take.
  here_cases :
      (malloc : Bool) (P : HashTable × Bool → Type 0)
      → ((c : Chain) (h : replace t.equal_func k v home ≡ some c) → P (overwritten c h, true))
      → (replace t.equal_func k v home ≡ none → malloc ≡ true → P (added, true))
      → (malloc ≡ false → P (t, false))
      → P (insert_here malloc k v t)
  unfolding insert_here added overwritten put home index
  here_cases true P f g e = elim (Option-cases (replace t.equal_func k v home)) [
    | inl h ↦ rw (insert_here, h) (g h refl)
    | inr (c, h) ↦ rw (insert_here, h) (f c h)
  ]
  here_cases false P f g e = elim (Option-cases (replace t.equal_func k v home)) [
    | inl h ↦ rw (insert_here, h) (e refl)
    | inr (c, h) ↦ rw (insert_here, h) (f c h)
  ]

  pub here-IsValid : (malloc : Bool) → suc t.entries < 2 ^ 60 → IsValid (insert_here malloc k v t).0
  here-IsValid malloc few =
      here_cases malloc (λ r. IsValid r.0) overwritten-IsValid (λ h _. added-IsValid h few)
        (λ _. valid)

  pub here-lookup :
      (malloc : Bool) (j : ℕ)
      → suc t.entries < 2 ^ 60
      → (insert_here malloc k v t).1 ≡ true
      → lookup j (insert_here malloc k v t).0 ≡ (if j == k then v else lookup j t)
  here-lookup malloc j few =
      here_cases malloc (λ r. r.1 ≡ true → lookup j r.0 ≡ (if j == k then v else lookup j t))
        (λ c h _. overwritten-lookup c h j) (λ h _ _. added-lookup h few j)
        (λ _ e. absurd (true≢false (sym e)))

  pub here_failed :
      (malloc : Bool)
      → (insert_here malloc k v t).1 ≡ false
      → (malloc ≡ false) × ((insert_here malloc k v t).0 ≡ t)
  here_failed malloc =
      here_cases malloc (λ r. r.1 ≡ false → (malloc ≡ false) × (r.0 ≡ t))
        (λ _ _ e. absurd (true≢false e)) (λ _ _ e. absurd (true≢false e)) (λ m _. (m, refl))
