-- ===== src/Sha1/Stream.antt =====
-- The loop over blocks, and what a context has taken in.
use mathlib.Core.List.{append_assoc}
use nginx_comment.Common.{
  ℕ, zero, suc, ◌+◌, ◌-◌, ◌*◌, ◌/◌, ◌%◌, ◌^◌, ◌≤◌, ◌<◌, ◌≡◌, refl, ap, ◌∙◌, [], ◌∷◌, ◌++◌, arith,
  take, drop, length, length-append, length-take, length-drop, Bytes, leb, Bool-cases, inl, inr,
}
use nginx_comment.Sha1.Block.{Regs, block, body}
use nginx_comment.Sha1.Context.{Sha1, initial, copy_at, update_blocks}

take-append_left : (n : ℕ) (xs ys : Bytes) → n ≤ length xs → take n (xs ++ ys) ≡ take n xs
take-append_left zero xs ys h = refl
take-append_left (suc n) [] ys h = absurd (omega arith)
take-append_left (suc n) (x ∷ xs) ys h = ap (◌∷◌ x) (take-append_left n xs ys (omega arith))

drop-append_left : (n : ℕ) (xs ys : Bytes) → n ≤ length xs → drop n (xs ++ ys) ≡ drop n xs ++ ys
drop-append_left zero xs ys h = refl
drop-append_left (suc n) [] ys h = absurd (omega arith)
drop-append_left (suc n) (x ∷ xs) ys h = drop-append_left n xs ys (omega arith)

pub take_all : (xs ys : Bytes) → take (length xs) (xs ++ ys) ≡ xs
take_all [] ys = refl
take_all (x ∷ xs) ys = ap (◌∷◌ x) (take_all xs ys)

-- All whole blocks of a text, and the rest.
abbrev pub absorb : Regs → Bytes → Regs × Bytes
absorb r m = body (length m / 64) r m

pub length-body :
    (k : ℕ) (r : Regs) (m : Bytes) → 64 * k ≤ length m → length (body k r m).1 ≡ length m - 64 * k
unfolding body
length-body zero r m h = omega arith
length-body (suc k) r m h = omega (
  arith,
  length-body k (block r (take 64 m)) (drop 64 m) (omega (arith, length-drop 64 m)),
  length-drop 64 m,
)

body_add :
    (j k : ℕ) (r : Regs) (m : Bytes) → body (j + k) r m ≡ body k (body j r m).0 (body j r m).1
unfolding body
body_add zero k r m = ap (λ n. body n r m) {x = 0 + k} {y = k} (omega arith)
body_add (suc j) k r m =
    ap (λ n. body n r m) {x = suc j + k} {y = suc (j + k)} (omega arith)
    ∙ body_add j k (block r (take 64 m)) (drop 64 m)

body-append :
    (k : ℕ) (r : Regs) (x y : Bytes)
    → 64 * k ≤ length x
    → body k r (x ++ y) ≡ ((body k r x).0, (body k r x).1 ++ y)
unfolding body
body-append zero r x y h = refl
body-append (suc k) r x y h =
    rw (take-append_left 64 x y (omega arith), drop-append_left 64 x y (omega arith))
      (body-append k (block r (take 64 x)) (drop 64 x) y (omega (arith, length-drop 64 x)))

-- A text may be taken in in two parts, the rest of the first before the second.
pub absorb-append :
    (r : Regs) (x y : Bytes) → absorb r (x ++ y) ≡ absorb (absorb r x).0 ((absorb r x).1 ++ y)
absorb-append r x y =
    let k = length x / 64 in
    let rest = (body k r x).1 in
    ap (λ n. body n r (x ++ y)) {x = length (x ++ y) / 64} {y = k + length (rest ++ y) / 64}
      (omega (arith, length-append x y, length-append rest y, length-body k r x (omega arith)))
    ∙ body_add k (length (rest ++ y) / 64) r (x ++ y)
    ∙ rw (body-append k r x y (omega arith)) refl

pub take_exact : (n : ℕ) (xs ys : Bytes) → n ≡ length xs → take n (xs ++ ys) ≡ xs
take_exact n xs ys h = rw h (take_all xs ys)

module _ (at : ℕ) (bs buffer : Bytes) (size : length buffer ≡ 64) (fits : at + length bs ≤ 64) where
  pub length-copy_at : length (copy_at at bs buffer) ≡ 64
  length-copy_at = omega (
    arith,
    length-append (take at buffer) (bs ++ drop (at + length bs) buffer),
    length-append bs (drop (at + length bs) buffer),
    length-take at buffer,
    length-drop (at + length bs) buffer,
  )

  pub take-copy_at : take (at + length bs) (copy_at at bs buffer) ≡ take at buffer ++ bs
  take-copy_at = rw (← append_assoc (take at buffer) bs (drop (at + length bs) buffer)) (
      take_exact (at + length bs) (take at buffer ++ bs) _
        (omega (arith, length-append (take at buffer) bs, length-take at buffer)))

-- A context has taken in the text `m`.
pub record Holds (ctx : Sha1) (m : Bytes) : Type 0 where
  pub bytes : ctx.bytes ≡ length m % 2 ^ 64
  pub regs : ctx.regs ≡ (absorb initial m).0
  pub pending : take (length m % 64) ctx.buffer ≡ (absorb initial m).1
  pub size : length ctx.buffer ≡ 64

-- What `update_blocks` leaves, from any registers, when nothing was pending.
pub record Takes (ctx : Sha1) (bs : Bytes) (ctx' : Sha1) : Type 0 where
  pub same : ctx'.bytes ≡ ctx.bytes
  pub regs : ctx'.regs ≡ (absorb ctx.regs bs).0
  pub pending : take (length bs % 64) ctx'.buffer ≡ (absorb ctx.regs bs).1
  pub size : length ctx'.buffer ≡ 64

pub update_blocks_lem :
    (ctx : Sha1) (bs : Bytes) → length ctx.buffer ≡ 64 → Takes ctx bs (update_blocks ctx bs)
unfolding update_blocks
update_blocks_lem ctx bs size = elim (Bool-cases (leb 64 (length bs))) [
  | inl e ↦
      let rest = (absorb ctx.regs bs).1 in
      let l : length rest ≡ length bs % 64 =
        omega (arith, length-body (length bs / 64) ctx.regs bs (omega arith)) in
      rw e (record {
        same = refl;
        regs = refl;
        pending = rw (← l) (take_exact (length rest) rest _ refl);
        size = length-copy_at 0 rest ctx.buffer size (omega arith);
      })
  | inr e ↦
      let few : length bs < 64 = ground arith in
      let none : length bs / 64 ≡ 0 = omega arith in
      rw e (record {
        same = refl;
        regs = rw none (unfold body in refl);
        pending = rw none (unfold body in take_exact (length bs % 64) bs _ (omega arith));
        size = length-copy_at 0 bs ctx.buffer size (omega arith);
      })
]
