-- ===== src/HashTable.antt =====
-- demo/src/core/ngx_hash.c and ngx_hash.h: the hash table that grows, `ngx_hash_table_t`. A chain of
-- entries is a list of pairs, and the array of chains a list. What `malloc` and `calloc` answer is
-- an argument: true where they return memory.
pub mod Chains
pub mod Rehash
pub mod Lookup
pub mod Insert
pub mod Map
use nginx_comment.Common.{
  ℕ, suc, ◌+◌, ◌*◌, ◌/◌, ◌%◌, ◌^◌, Bool, true, false, Option, none, some, List, [], ◌∷◌, ltb,
  if◌then◌else◌, get_or, set, length, replicate,
}

-- `ngx_uint_t`
abbrev pub u64 : ℕ → ℕ
u64 x = x % 2 ^ 64

abbrev pub hash_table_primes : List ℕ
hash_table_primes =
    193 ∷ 389 ∷ 769 ∷ 1543 ∷ 3079 ∷ 6151 ∷ 12289 ∷ 24593 ∷ 49157 ∷ 98317 ∷ 196613 ∷ 393241 ∷ 786433
    ∷ 1572869 ∷ 3145739 ∷ 6291469 ∷ 12582917 ∷ 25165843 ∷ 50331653 ∷ 100663319 ∷ 201326611
    ∷ 402653189 ∷ 805306457 ∷ 1610612741 ∷ []

pub record Pair : Type 0 where
  pub key : ℕ
  pub value : ℕ

abbrev pub Chain : Type 0
Chain = List Pair

pub record HashTable : Type 0 where
  pub table : List Chain
  pub hash_func : ℕ → ℕ
  pub equal_func : ℕ → ℕ → Bool
  pub table_size : ℕ
  pub entries : ℕ
  pub prime_index : ℕ

-- `ngx_hash_table_null`
abbrev pub null : ℕ
null = 0

-- The size that `ngx_hash_table_allocate_table` chooses.
unfoldable pub new_table_size : ℕ → ℕ → ℕ
new_table_size prime_index entries =
    if ltb prime_index (length hash_table_primes)
    then get_or hash_table_primes prime_index 0
    else u64 (entries * 10)

-- `ngx_hash_table_allocate_table`, where `calloc` gives memory.
unfoldable pub allocate_table : HashTable → HashTable
allocate_table t =
    let size = new_table_size t.prime_index t.entries in
    record t { table_size = size; table = replicate size [] }

-- `ngx_hash_table_new`
unfoldable pub new : Bool → Bool → (ℕ → ℕ) → (ℕ → ℕ → Bool) → Option HashTable
unfolding allocate_table
new malloc calloc hash equal =
    if malloc
    then if calloc
      then some (
          allocate_table (record {
            table = [];
            hash_func = hash;
            equal_func = equal;
            table_size = 0;
            entries = 0;
            prime_index = 0;
          }))
      else none
    else none

-- A pair is put before the others of its chain.
unfoldable pub put : (ℕ → ℕ) → ℕ → Pair → List Chain → List Chain
put hash size p table = let index = hash p.key % size in set table index (p ∷ get_or table index [])

-- The two loops of `ngx_hash_table_enlarge`.
unfoldable pub rehash_chain : (ℕ → ℕ) → ℕ → Chain → List Chain → List Chain
rehash_chain hash size [] table = table
rehash_chain hash size (p ∷ rover) table = rehash_chain hash size rover (put hash size p table)

unfoldable pub rehash : (ℕ → ℕ) → ℕ → List Chain → List Chain → List Chain
rehash hash size [] table = table
rehash hash size (c ∷ old_table) table = rehash hash size old_table (rehash_chain hash size c table)

-- `ngx_hash_table_enlarge`: where `calloc` fails, the three fields are as they were.
unfoldable pub enlarge : Bool → HashTable → HashTable × Bool
unfolding allocate_table rehash
enlarge calloc t =
    if calloc
    then (let u = allocate_table (record t { prime_index = u64 (suc t.prime_index) }) in
        (record u { table = rehash u.hash_func u.table_size t.table u.table }, true))
    else (t, false)

-- The walk of `ngx_hash_table_insert` along a chain: none where it reaches the end.
unfoldable pub replace : (ℕ → ℕ → Bool) → ℕ → ℕ → Chain → Option Chain
replace equal k v [] = none
replace equal k v (p ∷ rover) =
    let rest = replace equal k v rover in
    if equal p.key k
    then some (record { key = k; value = v } ∷ rover)
    else elim rest [ none ↦ none | some c ↦ some (p ∷ c) ]

-- `ngx_hash_table_insert` behind the test for its growth.
unfoldable pub insert_here : Bool → ℕ → ℕ → HashTable → HashTable × Bool
unfolding replace
insert_here malloc k v t =
    let index = t.hash_func k % t.table_size in
    let chain = get_or t.table index [] in
    elim (replace t.equal_func k v chain) [
      | some c ↦ (record t { table = set t.table index c }, true)
      | none ↦
          if malloc
          then (
            record t {
              table = set t.table index (record { key = k; value = v } ∷ chain);
              entries = u64 (suc t.entries);
            },
            true,
          )
          else (t, false)
    ]

-- `ngx_hash_table_insert`: the table behind it, and whether it returned 1.
unfoldable pub insert : Bool → Bool → ℕ → ℕ → HashTable → HashTable × Bool
unfolding enlarge insert_here
insert calloc malloc k v t =
    if ltb 0 (u64 (t.entries * 3) / t.table_size)
    then (let (u, grown) = enlarge calloc t in
        if grown then insert_here malloc k v u else (u, false))
    else insert_here malloc k v t

-- The walk of `ngx_hash_table_lookup`.
unfoldable pub find : (ℕ → ℕ → Bool) → ℕ → Chain → ℕ
find equal k [] = null
find equal k (p ∷ rover) = if equal k p.key then p.value else find equal k rover

-- `ngx_hash_table_lookup`
unfoldable pub lookup : ℕ → HashTable → ℕ
unfolding find
lookup k t = find t.equal_func k (get_or t.table (t.hash_func k % t.table_size) [])
