-- ===== src/HashTable/Lookup.antt =====
-- The table is a finite map: what `ngx_hash_table_lookup` finds behind `ngx_hash_table_new` and
-- `ngx_hash_table_insert`, growth and failed allocations included.
use nginx_comment.Common.{
  ℕ, suc, ◌%◌, ◌^◌, ◌≤◌, ◌<◌, ◌≡◌, refl, sym, ◌∙◌, true, [], arith, ltb, ltb→lt, get_or, length,
  replicate, length-replicate,
}
use nginx_comment.Common.Bits.{passes, at-passes}
use nginx_comment.HashTable.{
  Chain, HashTable, hash_table_primes, u64, new_table_size, allocate_table, enlarge, lookup,
}
use nginx_comment.HashTable.Chains.{weight, total, one, given, unit, Equal, given_at, find-given}
use nginx_comment.HashTable.Rehash.{at_home, length-rehash, total-rehash, at_home-rehash}

-- The array has the size that the table notes; every pair is in the chain of its hash; a key has
-- one pair at most; `entries` is the number of pairs.
pub record IsValid (t : HashTable) : Type 0 where
  pub decides : Equal t.equal_func
  pub sized : length t.table ≡ t.table_size
  pub positive : 0 < t.table_size
  pub placed :
      (k : ℕ)
      → weight (one k) (get_or t.table (t.hash_func k % t.table_size) []) ≡ total (one k) t.table
  pub single : (k : ℕ) → total (one k) t.table ≤ 1
  pub counted : t.entries ≡ total unit t.table

-- What the table gives to a key is the sum over all its chains.
pub lookup-given : (k : ℕ) (t : HashTable) → IsValid t → lookup k t ≡ total (given k) t.table
unfolding lookup
lookup-given k t valid =
    let c = get_or t.table (t.hash_func k % t.table_size) [] in
    find-given t.equal_func (valid.decides) k c (omega (arith, valid.placed k, valid.single k))
    ∙ given_at k t.table (t.hash_func k % t.table_size) (valid.placed k)

primes_positive : (i : ℕ) → i < 24 → 0 < get_or hash_table_primes i 0
unfolding passes
primes_positive i h = ltb→lt _ _ (at-passes (λ i. ltb 0 (get_or hash_table_primes i 0)) h refl)

new_table_size_positive : (i n : ℕ) → 0 < n → n < 2 ^ 60 → 0 < new_table_size i n
unfolding new_table_size
new_table_size_positive i n h k = ground (arith, primes_positive i)

pub enlarge-IsValid :
    (t : HashTable) → IsValid t → 0 < t.entries → t.entries < 2 ^ 60 → IsValid (enlarge true t).0
unfolding enlarge allocate_table at_home
enlarge-IsValid t valid used few =
    let size = new_table_size (u64 (suc t.prime_index)) t.entries in
    let pos = new_table_size_positive (u64 (suc t.prime_index)) t.entries used few in
    let hash = t.hash_func in
    record {
      decides = valid.decides;
      sized =
          length-rehash hash size pos t.table (replicate size [])
          ∙ length-replicate {A = Chain} size [];
      positive = pos;
      placed = λ k.
          at_home-rehash hash size pos k t.table ∙ sym (total-rehash hash size pos (one k) t.table);
      single = λ k. rw (total-rehash hash size pos (one k) t.table) (valid.single k);
      counted = valid.counted ∙ sym (total-rehash hash size pos unit t.table);
    }

pub enlarge-lookup :
    (k : ℕ) (t : HashTable)
    → IsValid t
    → 0 < t.entries
    → t.entries < 2 ^ 60
    → lookup k (enlarge true t).0 ≡ lookup k t
unfolding enlarge allocate_table
enlarge-lookup k t valid used few =
    let size = new_table_size (u64 (suc t.prime_index)) t.entries in
    let pos = new_table_size_positive (u64 (suc t.prime_index)) t.entries used few in
    lookup-given k _ (enlarge-IsValid t valid used few)
    ∙ total-rehash t.hash_func size pos (given k) t.table
    ∙ sym (lookup-given k t valid)
