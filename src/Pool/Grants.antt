-- ===== src/Pool/Grants.antt =====
-- What `ngx_palloc` and `ngx_pnalloc` give out, in a block or outside of the blocks.
use mathlib.Core.Path.{subst}
use nginx_comment.Common.{
  ℕ, ◌+◌, ◌%◌, ◌≤◌, ◌≡◌, ◌≢◌, ◌∙◌, refl, sym, ap, Bool, true, Option, none, some, List, [], ◌∷◌,
  ◌++◌, ◌⊎◌, inl, inr, leb, if_true, if_false, ==_iff, Bool-cases, Option-cases, arith, Ptr,
}
use nginx_comment.Pool.{
  release, Block, Pool, Sys, large_size, block_size, small_loop, palloc_block, palloc_small,
  keep_large, palloc_large, allocate,
}
use nginx_comment.Pool.Regions.{Region, Apart, All, All-append, or_map}
use nginx_comment.Pool.Valid.{extents, IsValid, IsFresh, Taken, Granted, fresh-Apart}
use nginx_comment.Pool.Serve.{
  IsFreshBlock, before, after, first, grown, extents_same, extents_grown, small_grant, block_grant,
  found_extents,
}

-- What `memalign` and `malloc` promise for an allocation of `size` bytes.
pub record IsFreshSys (sys : Sys) (size : ℕ) (p : Pool) : Type 0 where
  pub block : (a : Ptr) → sys.memalign ≡ some a → IsFreshBlock a p
  pub large : (a : Ptr) → sys.malloc ≡ some a → (a ≢ 0) × (a % 8 ≡ 0) × IsFresh (a, a + size) p
  pub both :
      (a b : Ptr)
      → sys.malloc ≡ some a
      → sys.memalign ≡ some b
      → Apart (a, a + size) (b, b + block_size p.blocks)

-- How `ngx_palloc_small` ends: it finds room, it adds a block, or it has no memory.
pub data SmallEnd (sys : Sys) (align : Bool) (size : ℕ) (p : Pool) (r : Option Ptr × Pool)
    : Type 0 where
  found :
      (m : Ptr) (changed : List Block)
      → small_loop align size (after p) ≡ some (m, changed)
      → r ≡ (some m, record p { blocks = before p ++ changed })
      → SmallEnd sys align size p r
  added :
      (a : Ptr)
      → small_loop align size (after p) ≡ none
      → sys.memalign ≡ some a
      → r ≡ (some (first p a size), grown p a size)
      → SmallEnd sys align size p r
  failed :
      small_loop align size (after p) ≡ none
      → sys.memalign ≡ none
      → r ≡ (none, p)
      → SmallEnd sys align size p r

pub palloc_small_cases :
    (sys : Sys) (align : Bool) (size : ℕ) (p : Pool)
    → SmallEnd sys align size p (palloc_small sys align size p)
unfolding palloc_small palloc_block
palloc_small_cases sys align size p = elim (Option-cases (small_loop align size (after p))) [
  | inr ((m, changed), e) ↦ found m changed e (rw (e, palloc_small) refl)
  | inl e ↦ elim (Option-cases sys.memalign) [
    | inl n ↦ failed e n (rw (e, palloc_small) (rw (n, palloc_block) refl))
    | inr (a, s) ↦ added a e s (rw (e, palloc_small) (rw (s, palloc_block) refl))
  ]
]

pub small-Granted :
    (sys : Sys) (align : Bool) (size : ℕ) (p : Pool) {m : Ptr} {r : Option Ptr × Pool}
    → IsValid p
    → size ≤ p.max
    → ((a : Ptr) → sys.memalign ≡ some a → IsFreshBlock a p)
    → SmallEnd sys align size p r
    → r.0 ≡ some m
    → Granted align size p m r.1
small-Granted sys align size p {m} v small fresh (found m' changed e r) h =
    let same : m' ≡ m = cc in
    subst (λ (q : Option Ptr × Pool). Granted align size p m q.1) (sym r)
      (subst (λ k. Granted align size p k (record p { blocks = before p ++ changed })) same
        (small_grant p align size m' changed v e))
small-Granted sys align size p {m} v small fresh (added a e s r) h =
    let same : first p a size ≡ m = cc in
    subst (λ (q : Option Ptr × Pool). Granted align size p m q.1) (sym r)
      (subst (λ k. Granted align size p k (grown p a size)) same
        (block_grant p a size v (fresh a s) small align))
small-Granted sys align size p v small fresh (failed e n r) h = cc

-- A region apart from the blocks, and from the block that may be added, is apart from the blocks
-- afterwards.
after-Apart :
    (sys : Sys) (align : Bool) (size : ℕ) (p : Pool) {r : Option Ptr × Pool} (s : Region)
    → IsValid p
    → All (Apart s) (extents p)
    → ((b : Ptr) → sys.memalign ≡ some b → Apart s (b, b + block_size p.blocks))
    → SmallEnd sys align size p r
    → All (Apart s) (extents r.1)
after-Apart sys align size p {r} s v h b (found m changed e q) =
    subst (λ (r : Option Ptr × Pool). All (Apart s) (extents r.1)) (sym q)
      (subst (All (Apart s)) (sym (extents_same p v changed (found_extents p align size v e))) h)
after-Apart sys align size p {r} s v h b (added a e k q) =
    subst (λ (r : Option Ptr × Pool). All (Apart s) (extents r.1)) (sym q)
      (subst (All (Apart s)) (sym (extents_grown p a size))
        (All-append (Apart s) (extents p) ((a, a + block_size p.blocks) ∷ []) h (b a k, tt)))
after-Apart sys align size p {r} s v h b (failed e n q) =
    subst (λ (r : Option Ptr × Pool). All (Apart s) (extents r.1)) (sym q) h

pub live_IsValid : {p : Pool} (live : List Ptr) → IsValid p → IsValid (record p { live = live })
live_IsValid live v = record {
  sound = v.sound;
  separate = v.separate;
  large_apart = v.large_apart;
  size_aligned = v.size_aligned;
  current_in = v.current_in;
  node_fits = v.node_fits;
}

used-Apart :
    (sys : Sys) (size : ℕ) (p : Pool) (a : Ptr)
    → IsValid p
    → IsFreshSys sys size p
    → sys.malloc ≡ some a
    → (g : Region) → Taken p g
    → Apart (a, a + size) g
used-Apart sys size p a v f e g = fresh-Apart v (f.large a e).2 (omega arith, omega arith)

module _ (align : Bool) (sys : Sys) (size : ℕ) (p : Pool) (v : IsValid p)
    (fresh : IsFreshSys sys size p) where
  abbrev held : Ptr → Pool
  held a = record p { live = a ∷ p.live }

  held-IsFreshBlock : (a b : Ptr) → sys.memalign ≡ some b → IsFreshBlock b (held a)
  held-IsFreshBlock a b e =
      let f = fresh.block b e in
      record {
        aligned = f.aligned;
        bounded = f.bounded;
        fresh = record { from_blocks = f.fresh.from_blocks; from_large = f.fresh.from_large };
      }

  large-Granted :
      (a : Ptr)
      → sys.malloc ≡ some a
      → (r : Option Ptr × Pool) → SmallEnd sys true large_size (held a) r
      → {m : Ptr} → (keep_large a size r).0 ≡ some m
      → Granted align size p m (keep_large a size r).1
  unfolding keep_large
  large-Granted a e (none, p') end h = cc
  large-Granted a e (some node, p') end {m} h =
      let w = live_IsValid (a ∷ p.live) v in
      let g =
        small-Granted sys true large_size (held a) w v.node_fits (held-IsFreshBlock a) end refl in
      let f = fresh.large a e in
      let same : a ≡ m = cc in
      let kept : Pool = record p' {
        large = (record { node = node; alloc = a; size = size }) ∷ p'.large;
      } in
      subst (λ k. Granted align size p k kept) same
        (record {
          valid = record {
            sound = g.valid.sound;
            separate = g.valid.separate;
            large_apart = (
              after-Apart sys true large_size (held a) (a, a + size) w f.2.from_blocks
                  (λ b k. fresh.both a b e k) end,
              g.valid.large_apart,
            );
            size_aligned = g.valid.size_aligned;
            current_in = g.valid.current_in;
            node_fits = g.valid.node_fits;
          };
          apart = used-Apart sys size p a v fresh e;
          taken = inr (inl (refl, refl));
          kept = λ q t. or_map (λ x. x) inr (g.kept q t);
          aligned = λ _. f.1;
        })

  palloc_large-Granted :
      {m : Ptr}
      → (palloc_large sys size p).0 ≡ some m
      → Granted align size p m (palloc_large sys size p).1
  unfolding palloc_large
  palloc_large-Granted {m} h = elim (Option-cases sys.malloc) [
    | inl n ↦
        let same : palloc_large sys size p ≡ (none, p) = rw (n, palloc_large) refl in
        let none_some : none ≡ some m = ap (λ (r : Option Ptr × Pool). r.0) (sym same) ∙ h in cc
    | inr (a, e) ↦
        let same : palloc_large sys size p
            ≡ keep_large a size (palloc_small sys true large_size (held a)) =
          rw (e, palloc_large) refl in
        subst (λ (r : Option Ptr × Pool). Granted align size p m r.1) (sym same)
          (large-Granted a e (palloc_small sys true large_size (held a))
            (palloc_small_cases sys true large_size (held a))
            (ap (λ (r : Option Ptr × Pool). r.0) (sym same) ∙ h))
  ]

  -- Where the pool is well formed and the C library returns fresh memory, the bytes that
  -- `ngx_palloc` (`align` is true) and `ngx_pnalloc` return lie apart from all that the pool has given
  -- out and is itself kept by it, and so is all that was given out before; `ngx_palloc` returns an
  -- aligned address, and the pool is well formed afterwards.
  pub allocate-Granted :
      {m : Ptr}
      → (allocate align sys size p).0 ≡ some m
      → Granted align size p m (allocate align sys size p).1
  unfolding allocate palloc_large
  allocate-Granted {m} h = elim (Bool-cases (leb size p.max)) [
    | inl t ↦
        let same : allocate align sys size p ≡ palloc_small sys align size p = if_true _ t in
        subst (λ (r : Option Ptr × Pool). Granted align size p m r.1) (sym same)
          (small-Granted sys align size p v (ground arith) fresh.block
            (palloc_small_cases sys align size p)
            (ap (λ (r : Option Ptr × Pool). r.0) (sym same) ∙ h))
    | inr t ↦
        let same : allocate align sys size p ≡ palloc_large sys size p = if_false _ t in
        subst (λ (r : Option Ptr × Pool). Granted align size p m r.1) (sym same)
          (palloc_large-Granted (ap (λ (r : Option Ptr × Pool). r.0) (sym same) ∙ h))
  ]

refused_lem :
    (sys : Sys) (align : Bool) (size : ℕ) (p : Pool) {r : Option Ptr × Pool}
    → SmallEnd sys align size p r
    → r.0 ≡ none
    → (r ≡ (none, p)) × (sys.memalign ≡ none)
refused_lem sys align size p (found m changed e q) h = cc
refused_lem sys align size p (added a e s q) h = cc
refused_lem sys align size p (failed e n q) h = (q, n)

keep_large_refused :
    (a : Ptr) (size : ℕ) (r : Option Ptr × Pool) → (keep_large a size r).0 ≡ none → r.0 ≡ none
unfolding keep_large
keep_large_refused a size (none, p) h = refl
keep_large_refused a size (some node, p) h = cc

module _ (align : Bool) (sys : Sys) (size : ℕ) (p : Pool) where
  large_refused :
      (palloc_large sys size p).0 ≡ none
      → (palloc_large sys size p ≡ (none, p)) × ((sys.memalign ≡ none) ⊎ (sys.malloc ≡ none))
  unfolding palloc_large keep_large
  large_refused h = elim (Option-cases sys.malloc) [
    | inl n ↦ (rw (n, palloc_large) refl, inr n)
    | inr (a, e) ↦
        let held : Pool = record p { live = a ∷ p.live } in
        let small = palloc_small sys true large_size held in
        let same : palloc_large sys size p ≡ keep_large a size small = rw (e, palloc_large) refl in
        let (q, n) =
          refused_lem sys true large_size held (palloc_small_cases sys true large_size held) (
            keep_large_refused a size small (ap (λ (r : Option Ptr × Pool). r.0) (sym same) ∙ h)) in
        (
          same
              ∙ ap (keep_large a size) q
              ∙ ap (λ (l : List Ptr). (none, record p { live = l }))
                  (if_true (a ∷ release a p.live) ((==_iff a a).1 refl)),
          inl n,
        )
  ]

  -- Where `ngx_palloc` or `ngx_pnalloc` returns NULL, the C library has refused memory, and the pool
  -- and what the program holds are as before.
  pub allocate_refused :
      (allocate align sys size p).0 ≡ none
      → (allocate align sys size p ≡ (none, p)) × ((sys.memalign ≡ none) ⊎ (sys.malloc ≡ none))
  unfolding allocate
  allocate_refused h = elim (Bool-cases (leb size p.max)) [
    | inl t ↦
        let same : allocate align sys size p ≡ palloc_small sys align size p = if_true _ t in
        let (q, n) =
          refused_lem sys align size p (palloc_small_cases sys align size p)
            (ap (λ (r : Option Ptr × Pool). r.0) (sym same) ∙ h) in
        (same ∙ q, inl n)
    | inr t ↦
        let same : allocate align sys size p ≡ palloc_large sys size p = if_false _ t in
        let (q, n) = large_refused (ap (λ (r : Option Ptr × Pool). r.0) (sym same) ∙ h) in
        (same ∙ q, n)
  ]
