-- ===== src/Pool/Serve.antt =====
-- What `ngx_palloc` and `ngx_pnalloc` give out.
use mathlib.Core.Path.{subst}
use mathlib.Core.List.{map-append, append_assoc}
use nginx_comment.Common.{
  ℕ, suc, ◌+◌, ◌-◌, ◌%◌, ◌≤◌, ◌<◌, ◌≡◌, ◌∙◌, refl, sym, ap, Bool, some, List, [], ◌∷◌, ◌++◌, ◌⊎◌,
  inl, inr, map, length, take, drop, take-append-drop, length-append, length-take, length-drop,
  arith, Ptr,
}
use nginx_comment.Pool.{
  Block, Large, Pool, u64, data_size, pool_size, block_size, align_ptr, small_loop, attach,
}
use nginx_comment.Pool.Regions.{
  Region, Apart, Inside, All, Some, Pairwise, All-append, All-parts, Some-right, Some-left,
  Some-parts, Pairwise-snoc, or_map,
}
use nginx_comment.Pool.Walk.{
  extent, used, Sound, Free, Attached, align_ptr_lem, small_loop_lem, attach_lem,
}
use nginx_comment.Pool.Valid.{
  extents, region_of, IsValid, IsFresh, Granted, fresh-Apart, unused-Apart,
}

-- What `memalign` promises: an aligned address of memory that nothing of the pool overlaps.
pub record IsFreshBlock (a : Ptr) (p : Pool) : Type 0 where
  pub aligned : a % 16 ≡ 0
  pub bounded : a + block_size p.blocks + 8 < u64
  pub fresh : IsFresh (a, a + block_size p.blocks) p

first_size : List Region → ℕ
first_size [] = 0
first_size (r ∷ rs) = r.1 - r.0

block_size_lem : (blocks : List Block) → block_size blocks ≡ first_size (map extent blocks)
unfolding first_size
block_size_lem [] = refl
block_size_lem (b ∷ blocks) = refl

first_size-append :
    (rs : List Region) (r : Region) → 0 < length rs → first_size (rs ++ r ∷ []) ≡ first_size rs
unfolding first_size
first_size-append [] r h = absurd (omega arith)
first_size-append (s ∷ rs) r h = refl

pub block_size-room :
    (max : ℕ) (blocks : List Block)
    → 0 < length blocks
    → All (λ b. Sound max b) blocks
    → pool_size + max ≤ block_size blocks
block_size-room max [] h v = absurd (omega arith)
block_size-room max (b ∷ blocks) h v = omega (arith, v.0.room)

pub length-map : {A B : Type 0} (f : A → B) (xs : List A) → length (map f xs) ≡ length xs
length-map f [] = refl
length-map f (x ∷ xs) = ap suc (length-map f xs)

-- The chain, where the part from `current` on is changed.
module _ (p : Pool) where
  abbrev pub before : List Block
  before = take p.current p.blocks

  abbrev pub after : List Block
  after = drop p.current p.blocks

  pub extents-parts : map extent before ++ map extent after ≡ extents p
  extents-parts =
      sym (map-append extent before after) ∙ ap (map extent) (take-append-drop p.current p.blocks)

  Some-after : (P : Block → Type 0) → Some P after → Some P p.blocks
  Some-after P h =
      subst (Some P) (take-append-drop p.current p.blocks) (Some-right P before after h)

  Some-in_parts : (P : Block → Type 0) → Some P p.blocks → Some P before ⊎ Some P after
  Some-in_parts P h =
      Some-parts P before after (subst (Some P) (sym (take-append-drop p.current p.blocks)) h)

  parts-Sound : IsValid p → All (Sound p.max) before × All (Sound p.max) after
  parts-Sound v =
      All-parts (Sound p.max) before after
        (subst (All (Sound p.max)) (sym (take-append-drop p.current p.blocks)) v.sound)

  -- The part from `current` on is replaced by blocks with the same extents.
  module _ (v : IsValid p) (changed : List Block)
      (same : map extent changed ≡ map extent after) where
    pub extents_same : map extent (before ++ changed) ≡ extents p
    extents_same =
        map-append extent before changed ∙ ap (λ e. map extent before ++ e) same ∙ extents-parts

    changed-IsValid : All (Sound p.max) changed → IsValid (record p { blocks = before ++ changed })
    changed-IsValid sound = record {
      sound = All-append (Sound p.max) before changed (parts-Sound v).0 sound;
      separate = subst (Pairwise Apart) (sym extents_same) v.separate;
      large_apart =
          subst (λ e. All (λ l. All (Apart (region_of l)) e) p.large) (sym extents_same)
            v.large_apart;
      size_aligned =
          subst (λ n. n % 8 ≡ 0)
            (block_size_lem p.blocks
              ∙ ap first_size (sym extents_same)
              ∙ sym (block_size_lem (before ++ changed)))
            v.size_aligned;
      current_in = omega (
        arith,
        v.current_in,
        length-map extent (before ++ changed),
        length-map extent p.blocks,
        ap length extents_same,
      );
      node_fits = v.node_fits;
    }

  Some-changed :
      (changed : List Block) (P : Block → Type 0)
      → (Some P after → Some P changed)
      → Some P p.blocks
      → Some P (before ++ changed)
  Some-changed changed P f h = elim (Some-in_parts P h) [
    | inl l ↦ Some-left P before changed l
    | inr r ↦ Some-right P before changed (f r)
  ]

  pub found_extents :
      (align : Bool) (size : ℕ) {m : Ptr} {changed : List Block}
      → IsValid p
      → small_loop align size after ≡ some (m, changed)
      → map extent changed ≡ map extent after
  found_extents align size {m} {changed} v e =
      let f = small_loop_lem align size p.max after (m, changed) (parts-Sound v).1 e in f.extents

  -- Where a block has room.
  pub small_grant :
      (align : Bool) (size : ℕ) (m : Ptr) (changed : List Block)
      → IsValid p
      → small_loop align size after ≡ some (m, changed)
      → Granted align size p m (record p { blocks = before ++ changed })
  small_grant align size m changed v e =
      let f = small_loop_lem align size p.max after (m, changed) (parts-Sound v).1 e in
      record {
        valid = changed-IsValid v changed f.extents f.sound;
        apart = λ g. unused-Apart v (Some-after (Free (m, m + size)) f.free);
        taken = inl (Some-right (λ b. Inside (m, m + size) (used b)) before changed f.taken);
        kept = λ g. or_map (Some-changed changed (λ b. Inside g (used b)) (f.kept g)) (λ h. h);
        aligned = f.aligned;
      }

  module _ (a : Ptr) (size : ℕ) where
    -- The new block of `ngx_palloc_block`.
    abbrev pub first : Ptr
    first = align_ptr (a + data_size)

    abbrev pub new : Block
    new = record { base = a; last = first + size; end = a + block_size p.blocks; failed = 0 }

    abbrev pub attached : List Block × ℕ
    attached = attach new p.current p.current after

    abbrev pub grown : Pool
    grown = record p { blocks = before ++ attached.0; current = attached.1; live = a ∷ p.live }

    link : Attached new p.current p.current p.max after attached
    link = attach_lem new p.current p.current p.max after

    pub extents_grown : extents grown ≡ extents p ++ extent new ∷ []
    extents_grown =
        map-append extent before attached.0
        ∙ ap (λ e. map extent before ++ e) link.extents
        ∙ sym (append_assoc (map extent before) (map extent after) (extent new ∷ []))
        ∙ ap (λ e. e ++ extent new ∷ []) extents-parts

  module _ (a : Ptr) (size : ℕ) (v : IsValid p) (fresh : IsFreshBlock a p)
      (small : size ≤ p.max) where
    room : pool_size + p.max ≤ block_size p.blocks
    room = block_size-room p.max p.blocks (omega (arith, v.current_in)) v.sound

    first_lem : (first a size) ≡ a + data_size
    first_lem =
        let (l, u, d) = align_ptr_lem (a + data_size) (omega (arith, fresh.bounded, room)) in
        omega (arith, fresh.aligned, l, u, d)

    new-Sound : Sound p.max (new a size)
    new-Sound = record {
      head = omega (arith, first_lem);
      below = omega (arith, first_lem, room);
      aligned = omega (arith, fresh.aligned, v.size_aligned);
      room = omega (arith, room);
      bounded = fresh.bounded;
    }

    size_grown : block_size (grown a size).blocks ≡ block_size p.blocks
    size_grown =
        block_size_lem (grown a size).blocks
        ∙ ap first_size (extents_grown a size)
        ∙ first_size-append (extents p) (extent (new a size))
            (omega (arith, v.current_in, length-map extent p.blocks))
        ∙ sym (block_size_lem p.blocks)

    large_grown :
        (large : List Large)
        → All (λ l. All (Apart (region_of l)) (extents p)) large
        → All (λ l. Apart (extent (new a size)) (region_of l)) large
        → All (λ l. All (Apart (region_of l)) (extents p ++ extent (new a size) ∷ [])) large
    large_grown [] h k = tt
    large_grown (l ∷ large) h k = (
      All-append (Apart (region_of l)) (extents p) (extent (new a size) ∷ []) h.0
          (ground (arith, k.0), tt),
      large_grown large h.1 k.1,
    )

    grown-IsValid : IsValid (grown a size)
    grown-IsValid = record {
      sound =
          All-append (Sound p.max) before (attached a size).0 (parts-Sound v).0
            ((link a size).sound (parts-Sound v).1 new-Sound);
      separate =
          subst (Pairwise Apart) (sym (extents_grown a size))
            (Pairwise-snoc (extents p) (extent (new a size)) v.separate fresh.fresh.from_blocks);
      large_apart =
          subst (λ e. All (λ l. All (Apart (region_of l)) e) p.large) (sym (extents_grown a size))
            (large_grown p.large v.large_apart fresh.fresh.from_large);
      size_aligned = subst (λ n. n % 8 ≡ 0) (sym size_grown) v.size_aligned;
      current_in = omega (
        arith,
        v.current_in,
        length-append before (attached a size).0,
        length-take p.current p.blocks,
        (link a size).current_in (omega (arith, length-drop p.current p.blocks, v.current_in)),
      );
      node_fits = v.node_fits;
    }

    -- A (new a size) block.
    pub block_grant : (align : Bool) → Granted align size p (first a size) (grown a size)
    block_grant align = record {
      valid = grown-IsValid;
      apart =
          λ g. fresh-Apart v fresh.fresh (omega (arith, first_lem), omega (arith, first_lem, room));
      taken = inl (
          Some-right (λ b. Inside ((first a size), (first a size) + size) (used b)) before
            (attached a size).0
            ((link a size).added ((first a size), (first a size) + size)
              (omega (arith, first_lem), omega arith)));
      kept = λ g.
          or_map (Some-changed (attached a size).0 (λ b. Inside g (used b)) ((link a size).kept g))
            (λ h. h);
      aligned = λ _. omega (arith, first_lem, fresh.aligned);
    }
