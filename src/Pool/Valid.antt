-- ===== src/Pool/Valid.antt =====
-- Well-formed pools, and where an allocation of them lies.
use nginx_comment.Common.{
  ℕ, ◌+◌, ◌%◌, ◌≤◌, ◌<◌, ◌≡◌, Bool, true, List, [], ◌∷◌, ◌⊎◌, inl, inr, map, length, arith, Ptr,
}
use nginx_comment.Pool.{Block, Large, Pool, large_size, block_size}
use nginx_comment.Pool.Regions.{Region, Apart, Inside, All, Some, Pairwise}
use nginx_comment.Pool.Walk.{extent, used, Sound, Free}

abbrev pub region_of : Large → Region
region_of l = (l.alloc, l.alloc + l.size)

abbrev pub extents : Pool → List Region
extents p = map extent p.blocks

-- The blocks are sound and lie apart from one another and from the large allocations.
pub record IsValid (p : Pool) : Type 0 where
  pub sound : All (Sound p.max) p.blocks
  pub separate : Pairwise Apart (extents p)
  pub large_apart : All (λ l. All (Apart (region_of l)) (extents p)) p.large
  pub size_aligned : block_size p.blocks % 8 ≡ 0
  pub current_in : p.current < length p.blocks
  pub node_fits : large_size ≤ p.max

-- The region is that of a large allocation.
abbrev pub Holds : Region → Large → Type 0
Holds g l = (l.alloc ≡ g.0) × (l.alloc + l.size ≡ g.1)

-- A region that was given out.
abbrev pub Taken : Pool → Region → Type 0
Taken p g = Some (λ b. Inside g (used b)) p.blocks ⊎ Some (Holds g) p.large

-- The region `r` lies apart from all memory of the pool.
pub record IsFresh (r : Region) (p : Pool) : Type 0 where
  pub from_blocks : All (Apart r) (extents p)
  pub from_large : All (λ l. Apart r (region_of l)) p.large

-- What an allocation at `m` has done.
pub record Granted (align : Bool) (size : ℕ) (p : Pool) (m : Ptr) (p' : Pool) : Type 0 where
  pub valid : IsValid p'
  pub apart : (g : Region) → Taken p g → Apart (m, m + size) g
  pub taken : Taken p' (m, m + size)
  pub kept : (g : Region) → Taken p g → Taken p' g
  pub aligned : align ≡ true → m % 8 ≡ 0

module _ (r g : Region) where
  large-Apart :
      (s : Region) (large : List Large)
      → Inside r s
      → All (λ l. Apart s (region_of l)) large
      → Some (Holds g) large
      → Apart r g
  large-Apart s [] i a h = absurd h
  large-Apart s (l ∷ large) i a (inl h) = ground arith
  large-Apart s (l ∷ large) i a (inr h) = large-Apart s large i a.1 h

module _ (max : ℕ) (r g : Region) where
  used_blocks-Apart :
      (s : Region) (blocks : List Block)
      → Inside r s
      → All (Apart s) (map extent blocks)
      → All (Sound max) blocks
      → Some (λ b. Inside g (used b)) blocks
      → Apart r g
  used_blocks-Apart s [] i a v h = absurd h
  used_blocks-Apart s (b ∷ blocks) i a v (inl h) = ground (arith, v.0.below)
  used_blocks-Apart s (b ∷ blocks) i a v (inr h) = used_blocks-Apart s blocks i a.1 v.1 h

  other_block-Apart :
      (s : Region) (blocks : List Block)
      → Inside g s
      → All (Apart s) (map extent blocks)
      → All (Sound max) blocks
      → Some (Free r) blocks
      → Apart r g
  other_block-Apart s [] i a v h = absurd h
  other_block-Apart s (b ∷ blocks) i a v (inl h) = ground (arith, v.0.below, v.0.head)
  other_block-Apart s (b ∷ blocks) i a v (inr h) = other_block-Apart s blocks i a.1 v.1 h

  -- What lies in the free part of a block lies apart from all that was given out of any.
  in_blocks-Apart :
      (blocks : List Block)
      → Pairwise Apart (map extent blocks)
      → All (Sound max) blocks
      → Some (Free r) blocks
      → Some (λ b. Inside g (used b)) blocks
      → Apart r g
  in_blocks-Apart [] a v h k = absurd h
  in_blocks-Apart (b ∷ blocks) a v (inl h) (inl k) = inr (omega arith)
  in_blocks-Apart (b ∷ blocks) a v (inl h) (inr k) =
      used_blocks-Apart (extent b) blocks (omega (arith, v.0.head), h.1) a.0 v.1 k
  in_blocks-Apart (b ∷ blocks) a v (inr h) (inl k) =
      other_block-Apart (extent b) blocks (k.0, omega (arith, v.0.below)) a.0 v.1 h
  in_blocks-Apart (b ∷ blocks) a v (inr h) (inr k) = in_blocks-Apart blocks a.1 v.1 h k

  in_large-Apart :
      (large : List Large) (blocks : List Block)
      → All (λ l. All (Apart (region_of l)) (map extent blocks)) large
      → All (Sound max) blocks
      → Some (Free r) blocks
      → Some (Holds g) large
      → Apart r g
  in_large-Apart [] blocks a v h k = absurd k
  in_large-Apart (l ∷ large) blocks a v h (inl k) =
      other_block-Apart (region_of l) blocks (omega arith, omega arith) a.0 v h
  in_large-Apart (l ∷ large) blocks a v h (inr k) = in_large-Apart large blocks a.1 v h k

-- A region within fresh memory lies apart from all that was given out.
pub fresh-Apart :
    {p : Pool} {r s g : Region} → IsValid p → IsFresh s p → Inside r s → Taken p g → Apart r g
fresh-Apart {p} {r} {s} {g} v f i (inl h) =
    used_blocks-Apart p.max r g s p.blocks i f.from_blocks v.sound h
fresh-Apart {p} {r} {s} {g} v f i (inr h) = large-Apart r g s p.large i f.from_large h

pub unused-Apart :
    {p : Pool} {r g : Region} → IsValid p → Some (Free r) p.blocks → Taken p g → Apart r g
unused-Apart {p} {r} {g} v f (inl h) = in_blocks-Apart p.max r g p.blocks v.separate v.sound f h
unused-Apart {p} {r} {g} v f (inr h) =
    in_large-Apart p.max r g p.large p.blocks v.large_apart v.sound f h
