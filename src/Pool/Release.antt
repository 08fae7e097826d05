-- ===== src/Pool/Release.antt =====
-- `ngx_reset_pool` and `ngx_pfree`: a pool stays well formed, and what it owns is what it holds.
use mathlib.Core.Path.{subst}
use nginx_comment.Common.{
  ℕ, ◌+◌, ◌%◌, ◌≡◌, ◌≢◌, ◌⊎◌, ◌∙◌, refl, sym, ap, true, false, none, some, List, [], ◌∷◌, ◌==◌,
  if◌then◌else◌, Bool-cases, Option-cases, inl, inr, map, arith, Ptr,
}
use nginx_comment.Pool.{
  Block, Large, Pool, block_size, release, reset_block, reset_pool, forget, pfree,
}
use nginx_comment.Pool.Regions.{Region, Apart, All, Some, Pairwise, or_map}
use nginx_comment.Pool.Walk.{extent, Sound}
use nginx_comment.Pool.Valid.{extents, region_of, IsValid, Taken, Holds}
use nginx_comment.Pool.Serve.{length-map}
use nginx_comment.Pool.Balance.{
  count, starts, large_count, owned, Balanced, count-release, count-free_large, large_count-forget,
}

nothing-Apart : (rs : List Region) → All (Apart (0, 0)) rs
nothing-Apart [] = tt
nothing-Apart (r ∷ rs) = (inl (omega arith), nothing-Apart rs)

forget_cases :
    (a : Ptr) (l : Large) (large changed : List Large)
    → forget a (l ∷ large) ≡ some changed
    → ((l.alloc ≡ a) × (changed ≡ record l { alloc = 0; size = 0 } ∷ large))
      ⊎ ((rest : List Large) × (forget a large ≡ some rest) × (changed ≡ l ∷ rest))
unfolding forget
forget_cases a l large changed e = elim (Bool-cases (l.alloc == a)) [
  | inl t ↦ inl (ground arith, cc)
  | inr t ↦ elim (Option-cases (forget a large)) [
    | inl o ↦ absurd (ground (arith, o))
    | inr (rest, o) ↦ inr (rest, o, ground (arith, o))
  ]
]

All-forget :
    (P : Large → Type 0) (a : Ptr) (large changed : List Large)
    → ((l : Large) → P (record l { alloc = 0; size = 0 }))
    → All P large
    → forget a large ≡ some changed
    → All P changed
unfolding forget
All-forget P a [] changed z h e = cc
All-forget P a (l ∷ large) changed z h e = elim (forget_cases a l large changed e) [
  | inl (s, c) ↦ subst (All P) (sym c) (z l, h.1)
  | inr (rest, o, c) ↦ subst (All P) (sym c) (h.0, All-forget P a large rest z h.1 o)
]

Holds-forget :
    (a : Ptr) (g : Region) (large changed : List Large)
    → g.0 ≢ a
    → forget a large ≡ some changed
    → Some (Holds g) large
    → Some (Holds g) changed
unfolding forget
Holds-forget a g [] changed n e h = absurd h
Holds-forget a g (l ∷ large) changed n e h = elim (forget_cases a l large changed e) [
  | inl (s, c) ↦ subst (Some (Holds g)) (sym c) (inr (other s h))
  | inr (rest, o, c) ↦
      subst (Some (Holds g)) (sym c) (or_map (λ k. k) (Holds-forget a g large rest n o) h)
]
  where
    other : l.alloc ≡ a → Some (Holds g) (l ∷ large) → Some (Holds g) large
    other s (inl k) = absurd (n (sym k.0 ∙ s))
    other s (inr k) = k

reset_extents : (blocks : List Block) → map extent (map reset_block blocks) ≡ map extent blocks
reset_extents [] = refl
reset_extents (b ∷ blocks) = ap (◌∷◌ (extent b)) (reset_extents blocks)

reset_block_size : (blocks : List Block) → block_size (map reset_block blocks) ≡ block_size blocks
reset_block_size [] = refl
reset_block_size (b ∷ blocks) = refl

reset-Sound :
    (max : ℕ) (blocks : List Block)
    → All (Sound max) blocks
    → All (Sound max) (map reset_block blocks)
reset-Sound max [] h = tt
reset-Sound max (b ∷ blocks) h = (
  record {
    head = omega arith;
    below = omega (arith, h.0.room);
    aligned = h.0.aligned;
    room = h.0.room;
    bounded = h.0.bounded;
  },
  reset-Sound max blocks h.1,
)

-- `ngx_reset_pool` keeps a pool well formed.
pub reset_pool-IsValid : (p : Pool) → IsValid p → IsValid (reset_pool p)
unfolding reset_pool
reset_pool-IsValid p v = record {
  sound = reset-Sound p.max p.blocks v.sound;
  separate = subst (Pairwise Apart) (sym (reset_extents p.blocks)) v.separate;
  large_apart = tt;
  size_aligned = subst (λ n. n % 8 ≡ 0) (sym (reset_block_size p.blocks)) v.size_aligned;
  current_in = omega (arith, v.current_in, length-map reset_block p.blocks);
  node_fits = v.node_fits;
}

pub reset_pool-Balanced :
    (outside : List Ptr) (p : Pool) → Balanced outside p → Balanced outside (reset_pool p)
unfolding reset_pool owned starts large_count
reset_pool-Balanced outside p h x = rw (reset_extents p.blocks) (
    count-free_large x p.large p.live (λ y. count y outside + starts y (extents p))
      (λ y. omega (arith, h y))
    ∙ omega arith)

module _ (a : Ptr) (p : Pool) where
  -- How `ngx_pfree` ends.
  pfree_cases :
      (P : Pool → Type 0)
      → (forget a p.large ≡ none → P p)
      → ((large : List Large)
          → forget a p.large ≡ some large
          → P (record p { large = large; live = if a == 0 then p.live else release a p.live }))
      → P (pfree a p).1
  unfolding pfree
  pfree_cases P declined done = elim (Option-cases (forget a p.large)) [
    | inl n ↦ rw (n, pfree) (declined n)
    | inr (large, e) ↦ rw (e, pfree) (done large e)
  ]

  pub pfree-IsValid : IsValid p → IsValid (pfree a p).1
  pfree-IsValid v =
      pfree_cases IsValid (λ _. v)
        (λ large e. record {
          sound = v.sound;
          separate = v.separate;
          large_apart =
              All-forget (λ l. All (Apart (region_of l)) (extents p)) a p.large large
                (λ l. nothing-Apart (extents p)) v.large_apart e;
          size_aligned = v.size_aligned;
          current_in = v.current_in;
          node_fits = v.node_fits;
        })

  pub pfree_keeps : (g : Region) → g.0 ≢ a → Taken p g → Taken (pfree a p).1 g
  pfree_keeps g n t =
      pfree_cases (λ q. Taken q g) (λ _. t)
        (λ large e. or_map (λ k. k) (Holds-forget a g p.large large n e) t)

  pub pfree-Balanced : (outside : List Ptr) → Balanced outside p → Balanced outside (pfree a p).1
  unfolding owned
  pfree-Balanced outside h =
      pfree_cases (Balanced outside) (λ _. h)
        (λ large e x. ground (
          arith,
          h x,
          h a,
          large_count-forget a x p.large large e,
          large_count-forget a a p.large large e,
          count-release x a p.live,
        ))

-- Where `ngx_pfree` does not return NGX_OK, the pool is as before.
pub pfree_declined : (a : Ptr) (p : Pool) → (pfree a p).0 ≡ false → pfree a p ≡ (false, p)
unfolding pfree
pfree_declined a p h = elim (Option-cases (forget a p.large)) [
  | inl n ↦ rw (n, pfree) refl
  | inr (large, e) ↦ let same : (pfree a p).0 ≡ true = rw (e, pfree) refl in absurd (cc)
]
