-- ===== src/Sha1/Digest.antt =====
-- The digest that `ngx_sha1_final` computes is that of the whole text, padded and cut into blocks.
use mathlib.Core.List.{append_assoc, append-nil}
use nginx_comment.Common.{
  ℕ, zero, suc, ◌+◌, ◌-◌, ◌*◌, ◌%◌, ◌^◌, ◌≤◌, ◌≡◌, refl, sym, ap, ◌∙◌, List, [], ◌∷◌, ◌++◌, arith,
  take, length, length-append, length-take, length-replicate, replicate, Bytes, ltb, Bool-cases,
  inl, inr,
}
use nginx_comment.Sha1.Block.{Regs, body}
use nginx_comment.Sha1.Context.{
  Sha1, initial, init, copy_at, u64, length_bytes, regs_bytes, last_block, update, final_regs,
  final,
}
use nginx_comment.Sha1.Stream.{absorb, length-copy_at, take-copy_at, Holds}
use nginx_comment.Sha1.Update.{
  absorb_more, absorb_short, absorb_block, body_one, take_len, update-Holds,
}

-- The padding of the standard: a one bit, zeros, and the length in bits, up to a whole block.
abbrev pub padding : ℕ → Bytes
padding n = 0x80 ∷ (replicate ((119 - n % 64) % 64) 0 ++ length_bytes (n * 8 % 2 ^ 64))

-- The digest of a text, in one go.
unfoldable pub digest : Bytes → Bytes
digest m = regs_bytes (absorb initial (m ++ padding (length m))).0

length-length_bytes : (n : ℕ) → length (length_bytes n) ≡ 8
unfolding length_bytes
length-length_bytes n = refl

replicate_add : (j k : ℕ) → replicate {A = ℕ} (j + k) 0 ≡ replicate j 0 ++ replicate k 0
replicate_add zero k = ap (λ n. replicate n 0) {x = 0 + k} {y = k} (omega arith)
replicate_add (suc j) k =
    ap (λ n. replicate {A = ℕ} n 0) {x = suc j + k} {y = suc (j + k)} (omega arith)
    ∙ ap (◌∷◌ 0) (replicate_add j k)

-- The blocks of a text of one block, and of two.
absorb_one : (r : Regs) (x : Bytes) → length x ≡ 64 → (absorb r x).0 ≡ (body 1 r x).0
absorb_one r x h =
    ap (λ y. (absorb r y).0) (sym (append-nil x))
    ∙ ap (λ y. y.0) (absorb_block r x [] h ∙ absorb_short (body 1 r x).0 [] (omega arith))

absorb_two :
    (r : Regs) (x y : Bytes)
    → length x ≡ 64
    → length y ≡ 64
    → (absorb r (x ++ y)).0 ≡ (body 1 (body 1 r x).0 y).0
absorb_two r x y h k = ap (λ y. y.0) (absorb_block r x y h) ∙ absorb_one (body 1 r x).0 y k

-- The last block, where the length goes behind zeros from `used` on.
last_block_lem :
    (bytes : ℕ) (r : Regs) (used : ℕ) (buffer : Bytes)
    → length buffer ≡ 64
    → used ≤ 56
    → last_block bytes r used buffer
      ≡ (body 1 r
          (take used buffer ++ (replicate (56 - used) 0 ++ length_bytes (u64 (bytes * 8))))).0
unfolding last_block
last_block_lem bytes r used buffer size le =
    let zeros : Bytes = replicate (64 - used - 8) 0 in
    let lz : length zeros ≡ 56 - used = omega (arith, length-replicate {A = ℕ} (64 - used - 8) 0) in
    let ls : Bytes = length_bytes (u64 (bytes * 8)) in
    let ll : length ls ≡ 8 = length-length_bytes (u64 (bytes * 8)) in
    let cleared = copy_at used zeros buffer in
    let size' : length cleared ≡ 64 = length-copy_at used zeros buffer size (omega arith) in
    let front : take 56 cleared ≡ take used buffer ++ zeros =
      ap (λ n. take n cleared) {x = 56} {y = used + length zeros} (omega arith)
      ∙ take-copy_at used zeros buffer size (omega arith) in
    let whole : take 64 (copy_at 56 ls cleared) ≡ take used buffer ++ (zeros ++ ls) =
      ap (λ n. take n (copy_at 56 ls cleared)) {x = 64} {y = 56 + length ls} (omega arith)
      ∙ take-copy_at 56 ls cleared size' (omega arith)
      ∙ rw front (append_assoc (take used buffer) zeros ls) in
    let same : 64 - used - 8 ≡ 56 - used = omega arith in
    body_one r (copy_at 56 ls cleared) (take used buffer ++ (zeros ++ ls)) (
      whole
      ∙ sym (
          take_len 64 (take used buffer ++ (zeros ++ ls)) omega (
            arith,
            length-append (take used buffer) (zeros ++ ls),
            length-append zeros ls,
            length-take used buffer,
          )))
    ∙ rw same refl

module _ (ctx : Sha1) (m : Bytes) (h : Holds ctx m) where
  abbrev used : ℕ
  used = length m % 64

  abbrev pending : Bytes
  pending = take used ctx.buffer

  abbrev marked : Bytes
  marked = copy_at used (0x80 ∷ []) ctx.buffer

  length-pending : length pending ≡ used
  length-pending = omega (arith, length-take used ctx.buffer, h.size)

  length-marked : length marked ≡ 64
  length-marked = length-copy_at used (0x80 ∷ []) ctx.buffer h.size (omega arith)

  take-marked : take (used + 1) marked ≡ pending ++ (0x80 ∷ [])
  take-marked = take-copy_at used (0x80 ∷ []) ctx.buffer h.size (omega arith)

  abbrev ls : Bytes
  ls = length_bytes (length m * 8 % 2 ^ 64)

  same_length : u64 (ctx.bytes * 8) ≡ length m * 8 % 2 ^ 64
  same_length = omega (arith, h.bytes)

  -- The length goes into the block that is pending.
  final_short :
      used ≤ 55
      → last_block ctx.bytes ctx.regs (used + 1) marked
        ≡ (absorb initial (m ++ padding (length m))).0
  final_short le =
      let zeros : Bytes = replicate (56 - (used + 1)) 0 in
      let lz : length zeros ≡ 55 - used =
        omega (arith, length-replicate {A = ℕ} (56 - (used + 1)) 0) in
      let tail : padding (length m) ≡ 0x80 ∷ (zeros ++ ls) =
        ap (λ n. 0x80 ∷ (replicate n 0 ++ ls)) {x = (119 - used) % 64} {y = 56 - (used + 1)}
          (omega arith) in
      let x : Bytes = pending ++ (0x80 ∷ (zeros ++ ls)) in
      last_block_lem ctx.bytes ctx.regs (used + 1) marked length-marked (omega arith)
      ∙ rw (same_length, take-marked)
          (ap (λ y. (body 1 ctx.regs y).0) (append_assoc pending (0x80 ∷ []) (zeros ++ ls))
            ∙ sym (
                absorb_one ctx.regs x (
                  omega (
                    arith,
                    length-append pending (0x80 ∷ (zeros ++ ls)),
                    length-append zeros ls,
                    length-length_bytes (length m * 8 % 2 ^ 64),
                    length-pending,
                  )))
            ∙ ap (λ y. (absorb ctx.regs (pending ++ y)).0) (sym tail)
            ∙ ap (λ y. y.0) (sym (absorb_more (padding (length m)) h)))

  -- The length goes into a block of its own.
  final_long :
      (free : ℕ)
      → free + used ≡ 63
      → 56 ≤ used
      → last_block ctx.bytes
          (body 1 ctx.regs (copy_at (used + 1) (replicate free 0) marked)).0
          0
          (copy_at (used + 1) (replicate free 0) marked)
        ≡ (absorb initial (m ++ padding (length m))).0
  final_long free e le =
      let zeros : Bytes = replicate free 0 in
      let lz : length zeros ≡ free = length-replicate {A = ℕ} free 0 in
      let padded = copy_at (used + 1) zeros marked in
      let lp : length padded ≡ 64 =
        length-copy_at (used + 1) zeros marked length-marked (omega arith) in
      let x : Bytes = pending ++ (0x80 ∷ zeros) in
      let lx : length x ≡ 64 =
        omega (arith, length-append pending (0x80 ∷ zeros), length-pending) in
      let y : Bytes = replicate 56 0 ++ ls in
      let ly : length y ≡ 64 = omega (
        arith,
        length-append (replicate {A = ℕ} 56 0) ls,
        length-length_bytes (length m * 8 % 2 ^ 64),
      ) in
      let first : take 64 padded ≡ x =
        ap (λ n. take n padded) {x = 64} {y = used + 1 + length zeros} (omega arith)
        ∙ take-copy_at (used + 1) zeros marked length-marked (omega arith)
        ∙ rw take-marked (append_assoc pending (0x80 ∷ []) zeros) in
      let tail : padding (length m) ≡ 0x80 ∷ (zeros ++ y) =
        ap (λ n. 0x80 ∷ (replicate n 0 ++ ls)) {x = (119 - used) % 64} {y = free + 56} (omega arith)
        ∙ ap (λ zs. 0x80 ∷ (zs ++ ls)) (replicate_add free 56)
        ∙ ap (◌∷◌ 0x80) (append_assoc zeros (replicate 56 0) ls) in
      last_block_lem ctx.bytes (body 1 ctx.regs padded).0 0 padded lp (omega arith)
      ∙ rw same_length (
          ap (λ r. (body 1 r y).0)
            (body_one ctx.regs padded x (first ∙ sym (take_len 64 x (omega arith))))
          ∙ sym (absorb_two ctx.regs x y lx ly)
          ∙ ap (λ z. (absorb ctx.regs z).0)
              (append_assoc pending (0x80 ∷ zeros) y ∙ ap (λ z. pending ++ z) (sym tail))
          ∙ ap (λ z. z.0) (sym (absorb_more (padding (length m)) h)))

-- After any text that a context has taken in, `ngx_sha1_final` returns the digest of that text.
pub final-digest : (ctx : Sha1) (m : Bytes) → Holds ctx m → final ctx ≡ digest m
unfolding final digest final_regs
final-digest ctx m h =
    let same : ctx.bytes % 64 ≡ length m % 64 = omega (arith, h.bytes) in
    ap regs_bytes (
      rw same (elim (Bool-cases (ltb (64 - (length m % 64 + 1)) 8)) [
        | inl e ↦ rw e (final_long ctx m h (64 - (length m % 64 + 1)) (omega arith) (ground arith))
        | inr e ↦ rw e (final_short ctx m h (ground arith))
      ]))

-- The context that `ngx_sha1_init` leaves has taken in nothing.
pub init-Holds : (buffer : Bytes) → length buffer ≡ 64 → Holds (init buffer) []
unfolding init body
init-Holds buffer size = record { bytes = refl; regs = refl; pending = refl; size = size }

-- A text that is handed over in any parts, one call of `ngx_sha1_update` each.
abbrev pub update_all : Sha1 → List Bytes → Sha1
update_all ctx [] = ctx
update_all ctx (part ∷ parts) = update_all (update ctx part) parts

abbrev pub joined : Bytes → List Bytes → Bytes
joined m [] = m
joined m (part ∷ parts) = joined (m ++ part) parts

update_all-Holds :
    (ctx : Sha1) (m : Bytes) (parts : List Bytes)
    → Holds ctx m
    → Holds (update_all ctx parts) (joined m parts)
update_all-Holds ctx m [] h = h
update_all-Holds ctx m (part ∷ parts) h =
    update_all-Holds (update ctx part) (m ++ part) parts (update-Holds ctx m part h)

-- However a text is cut into calls of `ngx_sha1_update`, and whatever the buffer of 64 bytes held
-- before, the result is the digest of the whole text, padded as the standard says.
pub sha1-digest :
    (buffer : Bytes) (parts : List Bytes)
    → length buffer ≡ 64
    → final (update_all (init buffer) parts) ≡ digest (joined [] parts)
sha1-digest buffer parts size =
    final-digest (update_all (init buffer) parts) (joined [] parts)
      (update_all-Holds (init buffer) [] parts (init-Holds buffer size))
