-- ===== src/HashTable/Map.antt =====
-- The table is a finite map with 0 for a missing key: `ngx_hash_table_new` makes the empty one, and
-- `ngx_hash_table_insert` changes it at one key, or not at all where memory is missing.
use mathlib.Core.Bool.{true≢false}
use native.Mathlib.Nat.{zero-div}
use nginx_comment.Common.{
  ℕ, zero, suc, ◌*◌, ◌/◌, ◌^◌, ◌<◌, ◌≡◌, ◌⊎◌, refl, sym, ap, ◌∙◌, Bool, true, false, [], ◌%◌, some,
  arith, ◌==◌, ltb, if◌then◌else◌, Bool-cases, inl, inr, replicate, length-replicate,
}
use nginx_comment.HashTable.{
  HashTable, Chain, null, u64, new, enlarge, allocate_table, new_table_size, insert_here, insert,
  lookup,
}
use nginx_comment.HashTable.Chains.{Equal, one, unit, given, total-replicate}
use nginx_comment.HashTable.Rehash.{get_or-replicate}
use nginx_comment.HashTable.Lookup.{IsValid, enlarge-IsValid, enlarge-lookup, lookup-given}
use nginx_comment.HashTable.Insert.{here-IsValid, here-lookup, here_failed}

-- The table that `ngx_hash_table_new` makes.
unfoldable pub empty : (ℕ → ℕ) → (ℕ → ℕ → Bool) → HashTable
empty hash equal = record {
  table = replicate 193 [];
  hash_func = hash;
  equal_func = equal;
  table_size = 193;
  entries = 0;
  prime_index = 0;
}

pub empty-IsValid : (hash : ℕ → ℕ) (equal : ℕ → ℕ → Bool) → Equal equal → IsValid (empty hash equal)
unfolding empty
empty-IsValid hash equal law = record {
  decides = law;
  sized = length-replicate {A = Chain} 193 [];
  positive = omega arith;
  placed = λ k. rw (get_or-replicate 193 (hash k % 193)) (sym (total-replicate (one k) 193));
  single = λ k. omega (arith, total-replicate (one k) 193);
  counted = sym (total-replicate unit 193);
}

-- Where the comparison decides the equality of keys and memory is there, `ngx_hash_table_new` makes
-- a table of 193 chains that is well formed and gives every key 0.
new-IsValid :
    (hash : ℕ → ℕ) (equal : ℕ → ℕ → Bool) (k : ℕ)
    → Equal equal
    → (new true true hash equal ≡ some (empty hash equal))
      × IsValid (empty hash equal)
      × (lookup k (empty hash equal) ≡ null)
unfolding new allocate_table new_table_size empty
new-IsValid hash equal k law = (
  refl,
  empty-IsValid hash equal law,
  lookup-given k (empty hash equal) (empty-IsValid hash equal law) ∙ total-replicate (given k) 193,
)

-- The test for growth is only met by a table with entries.
growth_used : (n size : ℕ) → ltb 0 (u64 (n * 3) / size) ≡ true → 0 < n
growth_used zero size h = ground (arith, zero-div size)
growth_used (suc n) size h = omega arith

module _ (malloc : Bool) (k v : ℕ) (t : HashTable) where
  -- The three ways of `ngx_hash_table_insert`: no growth, growth, and growth refused.
  insert_cases :
      (calloc : Bool) (P : HashTable × Bool → Type 0)
      → P (insert_here malloc k v t)
      → (0 < t.entries → P (insert_here malloc k v (enlarge true t).0))
      → (calloc ≡ false → P (t, false))
      → P (insert calloc malloc k v t)
  unfolding insert enlarge
  insert_cases calloc P same grown full =
      elim (Bool-cases (ltb 0 (u64 (t.entries * 3) / t.table_size))) [
        | inr e ↦ rw (insert, e) same
        | inl e ↦
            elim calloc as (λ c. (c ≡ false → P (t, false)) → P (insert c malloc k v t)) [
              | true ↦ λ _. rw (insert, e) (grown (growth_used t.entries t.table_size e))
              | false ↦ λ full. rw (insert, e) (full refl)
            ]
              full
      ]

module _ (calloc malloc : Bool) (k v : ℕ) (t : HashTable) (valid : IsValid t)
    (few : suc t.entries < 2 ^ 60) where
  grown-IsValid : 0 < t.entries → IsValid (enlarge true t).0
  grown-IsValid used = enlarge-IsValid t valid used (omega arith)

  -- Where there is room to count one more entry below 2^60, `ngx_hash_table_insert` keeps a
  -- well-formed table well formed, whatever `calloc` and `malloc` answer.
  pub insert-IsValid : IsValid (insert calloc malloc k v t).0
  unfolding enlarge allocate_table
  insert-IsValid =
      insert_cases malloc k v t calloc (λ r. IsValid r.0) (here-IsValid k v t valid malloc few)
        (λ used. here-IsValid k v (enlarge true t).0 (grown-IsValid used) malloc few) (λ _. valid)

  -- For a well-formed table with room to count one more entry below 2^60, where
  -- `ngx_hash_table_insert` returns 1, `ngx_hash_table_lookup` finds the new value under the key, and
  -- under every other key what it found before.
  pub lookup-insert :
      (j : ℕ)
      → (insert calloc malloc k v t).1 ≡ true
      → lookup j (insert calloc malloc k v t).0 ≡ (if j == k then v else lookup j t)
  unfolding enlarge allocate_table
  lookup-insert j =
      insert_cases malloc k v t calloc
        (λ r. r.1 ≡ true → lookup j r.0 ≡ (if j == k then v else lookup j t))
        (here-lookup k v t valid malloc j few)
        (λ used stored.
          here-lookup k v (enlarge true t).0 (grown-IsValid used) malloc j few stored
          ∙ ap (λ x. if j == k then v else x) (enlarge-lookup j t valid used (omega arith)))
        (λ _ e. absurd (true≢false (sym e)))

  -- For a well-formed table with room to count one more entry below 2^60, where
  -- `ngx_hash_table_insert` returns 0, one of its allocations failed, and every key has the value
  -- that it had before.
  pub insert_failed :
      (j : ℕ)
      → (insert calloc malloc k v t).1 ≡ false
      → ((calloc ≡ false) ⊎ (malloc ≡ false))
        × (lookup j (insert calloc malloc k v t).0 ≡ lookup j t)
  unfolding enlarge allocate_table
  insert_failed j =
      insert_cases malloc k v t calloc
        (λ r. r.1 ≡ false → ((calloc ≡ false) ⊎ (malloc ≡ false)) × (lookup j r.0 ≡ lookup j t))
        (λ e. let (m, same) = here_failed k v t valid malloc e in (inr m, ap (lookup j) same))
        (λ used e.
          let (m, same) = here_failed k v (enlarge true t).0 (grown-IsValid used) malloc e in
          (inr m, ap (lookup j) same ∙ enlarge-lookup j t valid used (omega arith)))
        (λ c _. (inl c, refl))
