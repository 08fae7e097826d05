-- ===== src/Pool/Walk.antt =====
-- What the two walks along the chain of blocks do to it.
use nginx_comment.Common.{
  ℕ, ◌+◌, ◌-◌, ◌%◌, ◌≤◌, ◌<◌, ◌≡◌, ◌∙◌, refl, sym, ap, Bool, true, false, Option, none, some, List,
  [], ◌∷◌, ◌++◌, inl, inr, map, leb, ltb, if◌then◌else◌, if_false, Bool-cases, length, arith, Ptr,
}
use mathlib.Core.Path.{subst}
use nginx_comment.Pool.{
  Block, u64, data_size, pool_size, align_ptr, start, behind, small_loop, attach,
}
use nginx_comment.Pool.Regions.{Region, Inside, All, Some, or_map}

-- A block of the pool, and what was given out of it, its head included.
abbrev pub extent : Block → Region
extent b = (b.base, b.end)

abbrev pub used : Block → Region
used b = (b.base, b.last)

-- A block has room for the largest small allocation, and its end is aligned.
pub record Sound (max : ℕ) (b : Block) : Type 0 where
  pub head : b.base + data_size ≤ b.last
  pub below : b.last ≤ b.end
  pub aligned : b.end % 8 ≡ 0
  pub room : b.base + pool_size + max ≤ b.end
  pub bounded : b.end + 8 < u64

-- The region from `m` on lies in the free part of a block.
abbrev pub Free : Region → Block → Type 0
Free r b = (b.last ≤ r.0) × (r.1 ≤ b.end)

pub align_ptr_lem :
    (p : Ptr) → p + 8 < u64 → (p ≤ align_ptr p) × (align_ptr p < p + 8) × (align_ptr p % 8 ≡ 0)
unfolding align_ptr
align_ptr_lem p h = omega arith

-- What the loop of `ngx_palloc_small` has done where it found room.
pub record Found (align : Bool) (size max : ℕ) (blocks : List Block) (r : Ptr × List Block)
    : Type 0 where
  pub extents : map extent r.1 ≡ map extent blocks
  pub sound : All (Sound max) r.1
  pub free : Some (Free (r.0, r.0 + size)) blocks
  pub taken : Some (λ b. Inside (r.0, r.0 + size) (used b)) r.1
  pub kept : (g : Region) → Some (λ b. Inside g (used b)) blocks → Some (λ b. Inside g (used b)) r.1
  pub aligned : align ≡ true → r.0 % 8 ≡ 0

start_lem :
    (align : Bool) (max : ℕ) (b : Block)
    → Sound max b
    → (b.last ≤ start align b) × (start align b ≤ b.end) × (align ≡ true → start align b % 8 ≡ 0)
unfolding start
start_lem true max b h =
    let (l, u, e) = align_ptr_lem b.last (omega (arith, h.below, h.bounded)) in
    (l, omega (arith, h.below, h.aligned, u, e), λ _. e)
start_lem false max b h = (omega arith, h.below, λ e. ground arith)

module _ (align : Bool) (size max : ℕ) (b : Block) (blocks : List Block)
    (h : All (Sound max) (b ∷ blocks)) where
  here_fits : leb size ((b.end + u64 - start align b) % u64) ≡ true → start align b + size ≤ b.end
  here_fits e =
      let (l, u, d) = start_lem align max b h.0 in
      let f : size ≤ (b.end + u64 - start align b) % u64 = ground arith in
      omega (arith, h.0.bounded, h.0.head)

  here_Found :
      leb size ((b.end + u64 - start align b) % u64) ≡ true
      → Found align size max
          (b ∷ blocks)
          (start align b, record b { last = start align b + size } ∷ blocks)
  here_Found e =
      let (l, u, d) = start_lem align max b h.0 in
      let k : start align b + size ≤ b.end = here_fits e in
      record {
        extents = refl;
        sound = (
          record {
            head = omega (arith, h.0.head, l);
            below = k;
            aligned = h.0.aligned;
            room = h.0.room;
            bounded = h.0.bounded;
          },
          h.1,
        );
        free = inl (l, k);
        taken = inl (omega (arith, h.0.head), omega arith);
        kept = λ g. or_map (λ i. (i.0, omega (arith, i.1, l))) (λ x. x);
        aligned = d;
      }

  later_Found :
      (r : Ptr × List Block)
      → Found align size max blocks r
      → Found align size max (b ∷ blocks) (r.0, b ∷ r.1)
  later_Found r f = record {
    extents = ap (◌∷◌ (extent b)) f.extents;
    sound = (h.0, f.sound);
    free = inr f.free;
    taken = inr f.taken;
    kept = λ g. or_map (λ x. x) (f.kept g);
    aligned = f.aligned;
  }

pub behind_cases :
    (b : Block) (o : Option (Ptr × List Block)) {r : Ptr × List Block}
    → behind b o ≡ some r
    → (q : Ptr × List Block) × (o ≡ some q) × (r ≡ (q.0, b ∷ q.1))
behind_cases b none e = cc
behind_cases b (some (m, blocks)) e = ((m, blocks), refl, cc)

pub small_loop_lem :
    (align : Bool) (size max : ℕ) (blocks : List Block) (r : Ptr × List Block)
    → All (Sound max) blocks
    → small_loop align size blocks ≡ some r
    → Found align size max blocks r
unfolding small_loop start
small_loop_lem align size max [] r h e = cc
small_loop_lem align size max (b ∷ blocks) r h e =
    elim (Bool-cases (leb size ((b.end + u64 - start align b) % u64))) [
      | inl t ↦
          subst (Found align size max (b ∷ blocks)) (cc) (here_Found align size max b blocks h t)
      | inr t ↦
          let (q, o, s) = behind_cases b (small_loop align size blocks) (sym (if_false _ t) ∙ e) in
          subst (Found align size max (b ∷ blocks)) (sym s)
            (later_Found align size max b blocks h q (small_loop_lem align size max blocks q h.1 o))
    ]

-- What the loop of `ngx_palloc_block` has done.
pub record Attached (new : Block) (i current max : ℕ) (blocks : List Block) (r : List Block × ℕ)
    : Type 0 where
  pub extents : map extent r.0 ≡ map extent blocks ++ extent new ∷ []
  pub sound : All (Sound max) blocks → Sound max new → All (Sound max) r.0
  pub kept : (g : Region) → Some (λ b. Inside g (used b)) blocks → Some (λ b. Inside g (used b)) r.0
  pub added : (g : Region) → Inside g (used new) → Some (λ b. Inside g (used b)) r.0
  pub current_in : current < i + length blocks → r.1 < i + length r.0

pub attach_lem :
    (new : Block) (i current max : ℕ) (blocks : List Block)
    → Attached new i current max blocks (attach new i current blocks)
unfolding attach
attach_lem new i current max [] = record {
  extents = refl;
  sound = λ h n. (n, tt);
  kept = λ g h. absurd h;
  added = λ g h. inl h;
  current_in = λ h. omega arith;
}
attach_lem new i current max (b ∷ []) = record {
  extents = refl;
  sound = λ h n. (h.0, (n, tt));
  kept = λ g. or_map (λ x. x) (λ h. absurd h);
  added = λ g h. inr (inl h);
  current_in = λ h. omega arith;
}
attach_lem new i current max (b ∷ (b' ∷ blocks)) =
    let c = if ltb 4 b.failed then i + 1 else current in
    let rest = attach_lem new (i + 1) c max (b' ∷ blocks) in
    record {
      extents = ap (◌∷◌ (extent b)) (rest.extents);
      sound = λ h n. (
        record {
          head = h.0.head;
          below = h.0.below;
          aligned = h.0.aligned;
          room = h.0.room;
          bounded = h.0.bounded;
        },
        rest.sound h.1 n,
      );
      kept = λ g. or_map (λ x. x) (rest.kept g);
      added = λ g h. inr (rest.added g h);
      current_in = λ h. omega (arith, rest.current_in (ground arith));
    }
