-- ===== src/Pool/Balance.antt =====
-- What the program holds of the C library's memory, and what the pool holds of it.
use nginx_comment.Common.{
  ℕ, ◌+◌, ◌≤◌, ◌≡◌, ◌≢◌, ap, Bool, true, Option, none, some, List, [], ◌∷◌, ◌++◌, ◌==◌,
  if◌then◌else◌, Bool-cases, Option-cases, inl, inr, map, leb, arith, Ptr,
}
use nginx_comment.Pool.{
  Block, Large, Pool, Sys, large_size, block_size, release, free_large, free_blocks, destroy_pool,
  forget, keep_large, palloc_small, palloc_large, allocate,
}
use nginx_comment.Pool.Regions.{Region}
use nginx_comment.Pool.Walk.{extent}
use nginx_comment.Pool.Valid.{extents, IsValid}
use nginx_comment.Pool.Serve.{extents_same, extents_grown, found_extents}
use nginx_comment.Pool.Grants.{SmallEnd, found, added, failed, palloc_small_cases, live_IsValid}

abbrev pub one : ℕ → ℕ → ℕ
one x y = if x == y then 1 else 0

-- How often an address stands in a list.
unfoldable pub count : ℕ → List ℕ → ℕ
count x [] = 0
count x (y ∷ ys) = one x y + count x ys

unfoldable pub starts : ℕ → List Region → ℕ
starts x [] = 0
starts x (r ∷ rs) = one x r.0 + starts x rs

unfoldable pub large_count : ℕ → List Large → ℕ
large_count x [] = 0
large_count x (l ∷ large) = (if l.alloc == 0 then 0 else one x l.alloc) + large_count x large

-- How often the pool would give an address back: for its blocks and its large allocations.
unfoldable pub owned : ℕ → Pool → ℕ
unfolding starts large_count
owned x p = starts x (extents p) + large_count x p.large

-- The program holds what it held without the pool, and what the pool owns.
abbrev pub Balanced : List Ptr → Pool → Type 0
Balanced outside p = (x : Ptr) → count x p.live ≡ count x outside + owned x p

starts-append :
    (x : ℕ) (rs : List Region) (r : Region) → starts x (rs ++ r ∷ []) ≡ starts x rs + one x r.0
unfolding starts
starts-append x [] r = omega arith
starts-append x (s ∷ rs) r = omega (arith, starts-append x rs r)

module _ (outside : List Ptr) (sys : Sys) where
  small-Balanced :
      (align : Bool) (size : ℕ) (p : Pool) {r : Option Ptr × Pool}
      → IsValid p
      → Balanced outside p
      → SmallEnd sys align size p r
      → Balanced outside r.1
  unfolding owned count starts
  small-Balanced align size p v h (found m changed e q) x =
      let same = extents_same p v changed (found_extents p align size v e) in
      rw q (omega (arith, h x, ap (starts x) same))
  small-Balanced align size p v h (added a e k q) x = rw q (
      omega (
        arith,
        h x,
        ap (starts x) (extents_grown p a size),
        starts-append x (extents p) (a, a + block_size p.blocks),
      ))
  small-Balanced align size p v h (failed e n q) x = rw q (h x)

-- Memory that is held is given back once.
pub count-release :
    (x p : Ptr) (live : List Ptr)
    → 1 ≤ count p live
    → count x (release p live) + one x p ≡ count x live
unfolding count
count-release x p [] h = absurd (omega arith)
count-release x p (q ∷ live) h = ground (arith, count-release x p live)

-- The loop over the large allocations gives each of them back.
pub count-free_large :
    (x : Ptr) (large : List Large) (live : List Ptr) (rest : ℕ → ℕ)
    → ((y : Ptr) → count y live ≡ rest y + large_count y large)
    → count x (free_large large live) ≡ rest x
unfolding free_large large_count
count-free_large x [] live rest h = omega (arith, h x)
count-free_large x (l ∷ large) live rest h = elim (Bool-cases (l.alloc == 0)) [
  | inl t ↦ rw t (count-free_large x large live rest (λ y. ground (arith, h y)))
  | inr t ↦ rw t (
      count-free_large x large (release l.alloc live) rest
        (λ y. ground (arith, h y, h l.alloc, count-release y l.alloc live)))
]

count-free_blocks :
    (x : Ptr) (blocks : List Block) (live : List Ptr) (rest : ℕ → ℕ)
    → ((y : Ptr) → count y live ≡ rest y + starts y (map extent blocks))
    → count x (free_blocks blocks live) ≡ rest x
unfolding free_blocks starts
count-free_blocks x [] live rest h = omega (arith, h x)
count-free_blocks x (b ∷ blocks) live rest h =
    count-free_blocks x blocks (release b.base live) rest
      (λ y. ground (arith, h y, h b.base, count-release y b.base live))

pub large_count-forget :
    (a x : Ptr) (large : List Large)
    → (changed : List Large) → forget a large ≡ some changed
    → large_count x large ≡ large_count x changed + (if a == 0 then 0 else one x a)
unfolding forget large_count
large_count-forget a x [] changed e = cc
large_count-forget a x (l ∷ large) changed e = elim (Option-cases (forget a large)) [
  | inl o ↦ ground (arith, o)
  | inr (rest, o) ↦ ground (arith, o, large_count-forget a x large rest o)
]

-- `ngx_destroy_pool` gives back what the pool owns, once.
pub destroy_pool_lem :
    (outside : List Ptr) (p : Pool)
    → Balanced outside p
    → (x : Ptr) → count x (destroy_pool p) ≡ count x outside
unfolding destroy_pool owned
destroy_pool_lem outside p h x =
    count-free_blocks x p.blocks (free_large p.large p.live) (λ y. count y outside)
      (λ y.
        count-free_large y p.large p.live (λ z. count z outside + starts z (extents p))
          (λ z. omega (arith, h z)))

module _ (outside : List Ptr) (align : Bool) (sys : Sys) (size : ℕ) (p : Pool) (v : IsValid p)
    (h : Balanced outside p) where
  keep_large-Balanced :
      (a : Ptr) (r : Option Ptr × Pool)
      → a ≢ 0
      → Balanced (a ∷ outside) r.1
      → Balanced outside (keep_large a size r).1
  unfolding keep_large owned count large_count
  keep_large-Balanced a (none, p') n k x = ground (arith, k x, k a, count-release x a p'.live)
  keep_large-Balanced a (some node, p') n k x = ground (arith, k x)

  large-Balanced :
      ((a : Ptr) → sys.malloc ≡ some a → a ≢ 0) → Balanced outside (palloc_large sys size p).1
  unfolding palloc_large owned count
  large-Balanced n = elim (Option-cases sys.malloc) [
    | inl e ↦ rw (e, palloc_large) h
    | inr (a, e) ↦
        let held : Pool = record p { live = a ∷ p.live } in
        let w : Balanced (a ∷ outside) held = λ x. omega (arith, h x) in
        rw (e, palloc_large)
          (keep_large-Balanced a (palloc_small sys true large_size held) (n a e) (
            small-Balanced (a ∷ outside) sys true large_size held (live_IsValid (a ∷ p.live) v) w
              (palloc_small_cases sys true large_size held)))
  ]

  pub allocate-Balanced :
      ((a : Ptr) → sys.malloc ≡ some a → a ≢ 0) → Balanced outside (allocate align sys size p).1
  unfolding allocate
  allocate-Balanced n = elim (Bool-cases (leb size p.max)) [
    | inl t ↦
        rw (t, allocate)
          (small-Balanced outside sys align size p v h (palloc_small_cases sys align size p))
    | inr t ↦ rw (t, allocate) (large-Balanced n)
  ]
