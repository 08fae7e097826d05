-- ===== src/Pool.antt =====
-- demo/src/core/ngx_palloc.c and ngx_palloc.h: the memory pool.
pub mod Regions
pub mod Walk
pub mod Valid
pub mod Serve
pub mod Grants
pub mod Balance
pub mod Release
pub mod Runs
pub mod Overrun
use nginx_comment.Common.{
  ℕ, zero, suc, ◌+◌, ◌-◌, ◌*◌, ◌/◌, ◌%◌, ◌^◌, Bool, true, false, Option, none, some, List, [], ◌∷◌,
  ◌++◌, map, ltb, leb, ◌==◌, if◌then◌else◌, take, drop, Mem, Ptr,
}

-- `ngx_pool_data_t`, with the address at which it stands. The chain by `next` is a list.
pub record Block : Type 0 where
  pub base : Ptr
  pub last : Ptr
  pub end : Ptr
  pub failed : ℕ

-- `ngx_pool_large_t`, with the size that `ngx_alloc` was asked for, which no code reads.
pub record Large : Type 0 where
  pub node : Ptr
  pub alloc : Ptr
  pub size : ℕ

-- `ngx_pool_t`: the chain from the pool on, how many blocks stand before `current`, the list by `large`
-- and what the C library has handed out and not got back.
pub record Pool : Type 0 where
  pub blocks : List Block
  pub max : ℕ
  pub current : ℕ
  pub large : List Large
  pub live : List Ptr

-- What `memalign` and `malloc` return in one call, where they are called; none for NULL.
pub record Sys : Type 0 where
  pub memalign : Option Ptr
  pub malloc : Option Ptr

abbrev pub u64 : ℕ
u64 = 2 ^ 64

-- `sizeof(ngx_pool_t)`, `sizeof(ngx_pool_data_t)` and `sizeof(ngx_pool_large_t)`
abbrev pub pool_size : ℕ
pool_size = 64

abbrev pub data_size : ℕ
data_size = 32

abbrev pub large_size : ℕ
large_size = 16

-- `NGX_MAX_ALLOC_FROM_POOL`
abbrev pub max_alloc_from_pool : ℕ
max_alloc_from_pool = 4096

-- `ngx_align_ptr(p, NGX_ALIGNMENT)`
unfoldable pub align_ptr : Ptr → Ptr
align_ptr p = (p + 7) % u64 / 8 * 8

-- `free`
abbrev pub release : Ptr → List Ptr → List Ptr
release p [] = []
release p (q ∷ live) = if q == p then live else q ∷ release p live

-- The pool in the memory at `p`, in `ngx_create_pool`.
unfoldable pub init_pool : Ptr → ℕ → List Ptr → Pool
init_pool p size live = record {
  blocks = (record { base = p; last = p + pool_size; end = p + size; failed = 0 }) ∷ [];
  max =
      if ltb ((size + u64 - pool_size) % u64) max_alloc_from_pool
      then (size + u64 - pool_size) % u64
      else max_alloc_from_pool;
  current = 0;
  large = [];
  live = p ∷ live;
}

-- `ngx_create_pool`, where `live` is what the program holds already
unfoldable pub create_pool : Sys → ℕ → List Ptr → Option Pool
unfolding init_pool
create_pool sys size live = elim (sys.memalign) [
  | none ↦ none
  | some p ↦ some (init_pool p size live)
]

-- The loop over the large allocations, in `ngx_destroy_pool` and `ngx_reset_pool`.
unfoldable pub free_large : List Large → List Ptr → List Ptr
free_large [] live = live
free_large (l ∷ large) live = free_large large (if l.alloc == 0 then live else release l.alloc live)

-- The loop over the blocks in `ngx_destroy_pool`.
unfoldable pub free_blocks : List Block → List Ptr → List Ptr
free_blocks [] live = live
free_blocks (b ∷ blocks) live = free_blocks blocks (release b.base live)

-- `ngx_destroy_pool`: what the program holds afterwards
unfoldable pub destroy_pool : Pool → List Ptr
destroy_pool p = free_blocks p.blocks (free_large p.large p.live)

-- `ngx_reset_pool`
abbrev pub reset_block : Block → Block
reset_block b = record b { last = b.base + pool_size; failed = 0 }

unfoldable pub reset_pool : Pool → Pool
reset_pool p = record p {
  blocks = map reset_block p.blocks;
  current = 0;
  large = [];
  live = free_large p.large p.live;
}

abbrev pub behind : Block → Option (Ptr × List Block) → Option (Ptr × List Block)
behind b none = none
behind b (some (m, blocks)) = some (m, b ∷ blocks)

-- Where an allocation in a block begins.
unfoldable pub start : Bool → Block → Ptr
start align b = if align then align_ptr b.last else b.last

-- The loop of `ngx_palloc_small`, from `current` on.
unfoldable pub small_loop : Bool → ℕ → List Block → Option (Ptr × List Block)
unfolding start
small_loop align size [] = none
small_loop align size (b ∷ blocks) =
    let m = start align b in
    let rest = behind b (small_loop align size blocks) in
    if leb size ((b.end + u64 - m) % u64)
    then some (m, record b { last = m + size } ∷ blocks)
    else rest

-- The loop at the end of `ngx_palloc_block`, from `current` on, with the number of the block that is
-- looked at: the counters, the new `current`, and the new block behind the last.
unfoldable pub attach : Block → ℕ → ℕ → List Block → List Block × ℕ
attach new i current [] = (new ∷ [], current)
attach new i current (b ∷ []) = (b ∷ new ∷ [], current)
attach new i current (b ∷ (b' ∷ blocks)) =
    let (changed, current') =
      attach new (i + 1) (if ltb 4 b.failed then i + 1 else current) (b' ∷ blocks) in
    (record b { failed = b.failed + 1 } ∷ changed, current')

-- `pool->d.end - (u_char *) pool`
abbrev pub block_size : List Block → ℕ
block_size [] = 0
block_size (b ∷ blocks) = b.end - b.base

-- `ngx_palloc_block`
unfoldable pub palloc_block : Sys → ℕ → Pool → Option Ptr × Pool
unfolding attach align_ptr
palloc_block sys size p = elim (sys.memalign) [
  | none ↦ (none, p)
  | some a ↦
      let psize = block_size p.blocks in
      let m = align_ptr (a + data_size) in
      let new : Block = record { base = a; last = m + size; end = a + psize; failed = 0 } in
      let (changed, current') = attach new p.current p.current (drop p.current p.blocks) in
      (
        some m,
        record p {
          blocks = take p.current p.blocks ++ changed;
          current = current';
          live = a ∷ p.live;
        },
      )
]

-- `ngx_palloc_small`
unfoldable pub palloc_small : Sys → Bool → ℕ → Pool → Option Ptr × Pool
unfolding small_loop palloc_block
palloc_small sys align size p = elim (small_loop align size (drop p.current p.blocks)) [
  | none ↦ palloc_block sys size p
  | some (m, changed) ↦ (some m, record p { blocks = take p.current p.blocks ++ changed })
]

-- The end of `ngx_palloc_large`, by what `ngx_palloc_small` returns for the node.
unfoldable pub keep_large : Ptr → ℕ → Option Ptr × Pool → Option Ptr × Pool
keep_large a size (none, p) = (none, record p { live = release a p.live })
keep_large a size (some node, p) =
    (some a, record p { large = (record { node = node; alloc = a; size = size }) ∷ p.large })

-- `ngx_palloc_large`. The loop over `large` in it has no effect: its test `large == NULL` stands
-- behind the loop's own test of the same pointer.
unfoldable pub palloc_large : Sys → ℕ → Pool → Option Ptr × Pool
unfolding palloc_small keep_large
palloc_large sys size p = elim (sys.malloc) [
  | none ↦ (none, p)
  | some a ↦ keep_large a size (palloc_small sys true large_size (record p { live = a ∷ p.live }))
]

-- `ngx_palloc` where `align` is true, `ngx_pnalloc` where it is false
unfoldable pub allocate : Bool → Sys → ℕ → Pool → Option Ptr × Pool
unfolding palloc_large palloc_small
allocate align sys size p =
    if leb size p.max then palloc_small sys align size p else palloc_large sys size p

abbrev pub palloc : Sys → ℕ → Pool → Option Ptr × Pool
palloc = allocate true

abbrev pub pnalloc : Sys → ℕ → Pool → Option Ptr × Pool
pnalloc = allocate false

-- `ngx_memzero`
abbrev pub zeroed : Ptr → ℕ → Mem → Mem
zeroed p n mem q = if leb p q then (if ltb q (p + n) then 0 else mem q) else mem q

-- `ngx_pcalloc`
unfoldable pub pcalloc : Sys → ℕ → Pool → Mem → Option Ptr × Pool × Mem
unfolding allocate
pcalloc sys size p mem =
    let (m, p') = palloc sys size p in (m, p', elim m [ none ↦ mem | some q ↦ zeroed q size mem ])

abbrev pub kept : Large → Option (List Large) → Option (List Large)
kept l none = none
kept l (some large) = some (l ∷ large)

-- The loop of `ngx_pfree`: the entry whose `alloc` it is, if any, has none then.
unfoldable pub forget : Ptr → List Large → Option (List Large)
forget a [] = none
forget a (l ∷ large) =
    let rest = kept l (forget a large) in
    if l.alloc == a then some (record l { alloc = 0; size = 0 } ∷ large) else rest

-- `ngx_pfree`: whether it returns NGX_OK; `free` does nothing for NULL
unfoldable pub pfree : Ptr → Pool → Bool × Pool
unfolding forget
pfree a p = elim (forget a p.large) [
  | none ↦ (false, p)
  | some large ↦
      (true, record p { large = large; live = if a == 0 then p.live else release a p.live })
]
