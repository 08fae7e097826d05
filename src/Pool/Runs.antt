-- ===== src/Pool/Runs.antt =====
-- Pools that are used: any number of allocations, releases and resets, one after the other.
use mathlib.Core.Path.{subst}
use nginx_comment.Common.{
  ℕ, ◌+◌, ◌%◌, ◌≤◌, ◌<◌, ◌≡◌, ◌≢◌, ◌∙◌, refl, sym, ap, Bool, Option, none, some, List, [], ◌∷◌,
  ◌==◌, if◌then◌else◌, Bool-cases, Option-cases, inl, inr, arith, Ptr,
}
use nginx_comment.Pool.{
  Pool, Sys, u64, pool_size, large_size, init_pool, create_pool, destroy_pool, reset_pool, pfree,
  allocate,
}
use nginx_comment.Pool.Regions.{Region, Apart, All, Pairwise, All-weaken}
use nginx_comment.Pool.Valid.{IsValid, Taken, Granted}
use nginx_comment.Pool.Grants.{IsFreshSys, allocate-Granted, allocate_refused}
use nginx_comment.Pool.Balance.{
  count, starts, large_count, owned, Balanced, destroy_pool_lem, allocate-Balanced,
}
use nginx_comment.Pool.Release.{
  reset_pool-IsValid, reset_pool-Balanced, pfree-IsValid, pfree_keeps, pfree-Balanced,
}

-- What is left of the regions where the one at `a` is given back.
abbrev pub others : Ptr → List Region → List Region
others a [] = []
others a (g ∷ gs) = if g.0 == a then others a gs else g ∷ others a gs

-- From one pool to another by the operations, with the regions that were given out since, and neither
-- given back nor ended by a reset.
pub data Run (p : Pool) : List Region → Pool → Type 0 where
  begun : Run p [] p
  granted :
      {gs : List Region} {q : Pool}
      → Run p gs q
      → (align : Bool) (sys : Sys) (size : ℕ) (m : Ptr) (q' : Pool) → IsFreshSys sys size q
      → allocate align sys size q ≡ (some m, q')
      → Run p ((m, m + size) ∷ gs) q'
  refused :
      {gs : List Region} {q : Pool}
      → Run p gs q
      → (align : Bool) (sys : Sys) (size : ℕ) (q' : Pool) → allocate align sys size q ≡ (none, q')
      → Run p gs q'
  freed :
      {gs : List Region} {q : Pool}
      → Run p gs q
      → (a : Ptr) (gs' : List Region) (q' : Pool) → q' ≡ (pfree a q).1
      → gs' ≡ others a gs
      → Run p gs' q'
  reset : {gs : List Region} {q : Pool} → Run p gs q → (q' : Pool) → q' ≡ reset_pool q → Run p [] q'

-- What holds along a run.
record Sane (outside : List Ptr) (gs : List Region) (q : Pool) : Type 0 where
  valid : IsValid q
  taken : All (Taken q) gs
  apart : Pairwise Apart gs
  balanced : Balanced outside q

others_lem :
    (P Q : Region → Type 0) (a : Ptr) (gs : List Region)
    → ((g : Region) → g.0 ≢ a → P g → Q g)
    → All P gs
    → All Q (others a gs)
others_lem P Q a [] f h = tt
others_lem P Q a (g ∷ gs) f h = elim (Bool-cases (g.0 == a)) [
  | inl t ↦ rw t (others_lem P Q a gs f h.1)
  | inr t ↦ rw t (f g (ground arith) h.0, others_lem P Q a gs f h.1)
]

others-Apart : (a : Ptr) (gs : List Region) → Pairwise Apart gs → Pairwise Apart (others a gs)
others-Apart a [] h = tt
others-Apart a (g ∷ gs) h = elim (Bool-cases (g.0 == a)) [
  | inl t ↦ rw t (others-Apart a gs h.1)
  | inr t ↦ rw t (others_lem (Apart g) (Apart g) a gs (λ k n i. i) h.0, others-Apart a gs h.1)
]

module _ (outside : List Ptr) (p : Pool) (v : IsValid p) (h : Balanced outside p) where
  Run-Sane : {gs : List Region} {q : Pool} → Run p gs q → Sane outside gs q
  Run-Sane begun = record { valid = v; taken = tt; apart = tt; balanced = h }
  Run-Sane (granted {gs} {q} r align sys size m q' fresh e) =
      let s = Run-Sane r in
      let g : Granted align size q m q' =
        subst (λ (t : Option Ptr × Pool). Granted align size q m t.1) e
          (allocate-Granted align sys size q s.valid fresh
            (ap (λ (t : Option Ptr × Pool). t.0) e)) in
      record {
        valid = g.valid;
        taken = (g.taken, All-weaken (Taken q) (Taken q') g.kept gs s.taken);
        apart = (All-weaken (Taken q) (Apart (m, m + size)) g.apart gs s.taken, s.apart);
        balanced =
            subst (λ (t : Option Ptr × Pool). Balanced outside t.1) e
              (allocate-Balanced outside align sys size q s.valid s.balanced
                (λ a k. (fresh.large a k).0));
      }
  Run-Sane (refused {gs} {q} r align sys size q' e) =
      let s = Run-Sane r in
      let (same, n) = allocate_refused align sys size q (ap (λ (t : Option Ptr × Pool). t.0) e) in
      subst (Sane outside gs) (ap (λ (t : Option Ptr × Pool). t.1) (sym same ∙ e)) s
  Run-Sane (freed {gs} {q} r a gs' q' e o) =
      let s = Run-Sane r in
      rw e (
        rw o (record {
          valid = pfree-IsValid a q s.valid;
          taken = others_lem (Taken q) (Taken (pfree a q).1) a gs (pfree_keeps a q) s.taken;
          apart = others-Apart a gs s.apart;
          balanced = pfree-Balanced a q outside s.balanced;
        }))
  Run-Sane (reset {gs} {q} r q' e) =
      let s = Run-Sane r in
      rw e (record {
        valid = reset_pool-IsValid q s.valid;
        taken = tt;
        apart = tt;
        balanced = reset_pool-Balanced outside q s.balanced;
      })

-- What `ngx_create_pool` needs: room behind the head of the pool, an aligned size, and an aligned
-- address from `memalign`, as it documents.
pub record IsCreated (sys : Sys) (size : ℕ) : Type 0 where
  pub large_enough : pool_size + large_size ≤ size
  pub size_aligned : size % 8 ≡ 0
  pub promised : (a : Ptr) → sys.memalign ≡ some a → (a % 16 ≡ 0) × (a + size + 8 < u64)

module _ (sys : Sys) (size : ℕ) (live : List Ptr) (c : IsCreated sys size) where
  init_pool-IsValid : (a : Ptr) → sys.memalign ≡ some a → IsValid (init_pool a size live)
  unfolding init_pool
  init_pool-IsValid a e =
      let (even, bounded) = c.promised a e in
      record {
        sound = (
          record {
            head = omega arith;
            below = omega (arith, c.large_enough);
            aligned = omega (arith, even, c.size_aligned);
            room = ground (arith, c.large_enough);
            bounded = bounded;
          },
          tt,
        );
        separate = (tt, tt);
        large_apart = tt;
        size_aligned = omega (arith, c.size_aligned);
        current_in = omega arith;
        node_fits = ground (arith, c.large_enough);
      }

  init_pool-Balanced : (a : Ptr) → Balanced live (init_pool a size live)
  unfolding init_pool owned starts large_count count
  init_pool-Balanced a x = omega arith

  created-Sane :
      {p q : Pool} {gs : List Region}
      → create_pool sys size live ≡ some p
      → Run p gs q
      → Sane live gs q
  unfolding create_pool
  created-Sane {p} e r = elim (Option-cases sys.memalign) [
    | inl n ↦ let empty : create_pool sys size live ≡ none = rw (n, create_pool) refl in absurd (cc)
    | inr (a, s) ↦
        let full : create_pool sys size live ≡ some (init_pool a size live) =
          rw (s, create_pool) refl in
        let same : init_pool a size live ≡ p = cc in
        Run-Sane live p (subst IsValid same (init_pool-IsValid a s))
          (subst (Balanced live) same (init_pool-Balanced a)) r
  ]

  module _ {p q : Pool} {gs : List Region} (e : create_pool sys size live ≡ some p)
      (r : Run p gs q) where
    -- A pool is created with an aligned size and room for its head, and used by any number of
    -- allocations, for which the C library returns fresh memory or none, of releases and of resets. The
    -- regions that were given out, and neither given back nor ended by a reset, lie apart from one
    -- another, each lies in the used part of a block or is a large allocation, and the pool is well
    -- formed.
    pub run_lem : IsValid q × All (Taken q) gs × Pairwise Apart gs
    run_lem = let s = created-Sane e r in (s.valid, s.taken, s.apart)

    -- When a pool that was created and used so is destroyed, the program holds of the C library what it
    -- held before it created the pool: each address as often as then.
    pub destroy_pool-count : (x : Ptr) → count x (destroy_pool q) ≡ count x live
    destroy_pool-count x = let s = created-Sane e r in destroy_pool_lem live q s.balanced x
