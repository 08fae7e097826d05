-- ===== src/Sha1/Update.antt =====
-- `ngx_sha1_update` takes in one more part of a text, however the text is cut.
use mathlib.Core.List.{append_assoc, append-nil}
use nginx_comment.Common.{
  ℕ, ◌+◌, ◌-◌, ◌/◌, ◌%◌, ◌^◌, ◌≤◌, ◌<◌, ◌≡◌, refl, sym, ap, ◌∙◌, [], ◌∷◌, ◌++◌, arith, take, drop,
  length, length-append, length-take, length-drop, take-append-drop, Bytes, ltb, ◌==◌, Bool-cases,
  inl, inr,
}
use nginx_comment.Sha1.Block.{Regs, body}
use nginx_comment.Sha1.Context.{Sha1, initial, copy_at, u64, update_blocks, update}
use nginx_comment.Sha1.Stream.{
  absorb, length-body, absorb-append, take_exact, length-copy_at, take-copy_at, Holds,
  update_blocks_lem,
}

length-absorb : (r : Regs) (m : Bytes) → length (absorb r m).1 ≡ length m % 64
length-absorb r m = omega (arith, length-body (length m / 64) r m (omega arith))

nil_of_length : (xs : Bytes) → length xs ≡ 0 → xs ≡ []
nil_of_length [] h = refl
nil_of_length (x ∷ xs) h = absurd (omega arith)

-- What is pending goes in front of the next part.
pub absorb_more :
    {ctx : Sha1} {m : Bytes} (bs : Bytes)
    → Holds ctx m
    → absorb initial (m ++ bs) ≡ absorb ctx.regs (take (length m % 64) ctx.buffer ++ bs)
absorb_more {m} bs h = absorb-append initial m bs ∙ rw (h.regs, h.pending) refl

pub absorb_short : (r : Regs) (m : Bytes) → length m < 64 → absorb r m ≡ (r, m)
absorb_short r m h = let e : length m / 64 ≡ 0 = omega arith in rw e (unfold body in refl)

pub absorb_block :
    (r : Regs) (x y : Bytes) → length x ≡ 64 → absorb r (x ++ y) ≡ absorb (body 1 r x).0 y
absorb_block r x y h =
    let e : length x / 64 ≡ 1 = omega arith in
    absorb-append r x y
    ∙ rw (e, nil_of_length (body 1 r x).1 (omega (arith, length-body 1 r x (omega arith)))) refl

pub take_len : (n : ℕ) (xs : Bytes) → n ≡ length xs → take n xs ≡ xs
take_len n xs h = ap (take n) (sym (append-nil xs)) ∙ take_exact n xs [] h

pub body_one : (r : Regs) (x y : Bytes) → take 64 x ≡ take 64 y → (body 1 r x).0 ≡ (body 1 r y).0
unfolding body
body_one r x y h = rw h refl

module _ (ctx : Sha1) (m bs : Bytes) (h : Holds ctx m) where
  abbrev counted : Sha1
  counted = record ctx { bytes = u64 (ctx.bytes + length bs) }

  bytes-counted : counted.bytes ≡ length (m ++ bs) % 2 ^ 64
  bytes-counted = omega (arith, h.bytes, length-append m bs)

  -- Nothing was pending.
  update_aligned : length m % 64 ≡ 0 → Holds (update_blocks counted bs) (m ++ bs)
  update_aligned e =
      let t = update_blocks_lem counted bs h.size in
      let a : absorb initial (m ++ bs) ≡ absorb ctx.regs bs = absorb_more bs h ∙ rw e refl in
      let n : length (m ++ bs) % 64 ≡ length bs % 64 = omega (arith, length-append m bs) in
      record {
        bytes = t.same ∙ bytes-counted;
        regs = t.regs ∙ sym (ap (λ x. x.0) a);
        pending = rw n t.pending ∙ sym (ap (λ x. x.1) a);
        size = t.size;
      }

  -- The part does not fill the buffer.
  update_within :
      length m % 64 + length bs < 64
      → Holds (record counted { buffer = copy_at (length m % 64) bs ctx.buffer }) (m ++ bs)
  update_within e =
      let used = length m % 64 in
      let x = take used ctx.buffer ++ bs in
      let l : length x ≡ used + length bs =
        omega
          (arith, length-append (take used ctx.buffer) bs, length-take used ctx.buffer, h.size) in
      let a : absorb initial (m ++ bs) ≡ (ctx.regs, x) =
        absorb_more bs h ∙ absorb_short ctx.regs x (omega arith) in
      let n : length (m ++ bs) % 64 ≡ used + length bs = omega (arith, length-append m bs) in
      record {
        bytes = bytes-counted;
        regs = sym (ap (λ x. x.0) a);
        pending =
            rw n (take-copy_at used bs ctx.buffer h.size (omega arith)) ∙ sym (ap (λ x. x.1) a);
        size = length-copy_at used bs ctx.buffer h.size (omega arith);
      }

  -- The part fills the buffer, and the rest of it goes on as from an empty one.
  update_over :
      (free : ℕ)
      → length m % 64 + free ≡ 64
      → free ≤ length bs
      → Holds
          (update_blocks
            (record counted {
              regs = (body 1 ctx.regs (copy_at (length m % 64) (take free bs) ctx.buffer)).0;
              buffer = copy_at (length m % 64) (take free bs) ctx.buffer;
            })
            (drop free bs))
          (m ++ bs)
  update_over free e le =
      let used = length m % 64 in
      let part = take free bs in
      let lp : length part ≡ free = omega (arith, length-take free bs) in
      let full = copy_at used part ctx.buffer in
      let x = take used ctx.buffer ++ part in
      let lx : length x ≡ 64 =
        omega
          (arith, length-append (take used ctx.buffer) part, length-take used ctx.buffer, h.size) in
      let size : length full ≡ 64 = length-copy_at used part ctx.buffer h.size (omega arith) in
      let t =
        update_blocks_lem (record counted { regs = (body 1 ctx.regs full).0; buffer = full })
          (drop free bs) size in
      let same : take 64 full ≡ take 64 x =
        ap (λ n. take n full) {x = 64} {y = used + length part} (omega arith)
        ∙ take-copy_at used part ctx.buffer h.size (omega arith)
        ∙ sym (take_len 64 x (omega arith)) in
      let a : absorb initial (m ++ bs) ≡ absorb (body 1 ctx.regs full).0 (drop free bs) =
        absorb_more bs h
        ∙ ap (absorb ctx.regs) (
            ap (λ y. take used ctx.buffer ++ y) (sym (take-append-drop free bs))
            ∙ sym (append_assoc (take used ctx.buffer) part (drop free bs)))
        ∙ absorb_block ctx.regs x (drop free bs) lx
        ∙ ap (λ r. absorb r (drop free bs)) (sym (body_one ctx.regs full x same)) in
      let n : length (m ++ bs) % 64 ≡ length (drop free bs) % 64 =
        omega (arith, length-append m bs, length-drop free bs) in
      record {
        bytes = t.same ∙ bytes-counted;
        regs = t.regs ∙ sym (ap (λ x. x.0) a);
        pending = rw n t.pending ∙ sym (ap (λ x. x.1) a);
        size = t.size;
      }

-- `ngx_sha1_update` adds a part to the text that has been taken in.
pub update-Holds : (ctx : Sha1) (m bs : Bytes) → Holds ctx m → Holds (update ctx bs) (m ++ bs)
unfolding update
update-Holds ctx m bs h =
    let used : ctx.bytes % 64 ≡ length m % 64 = omega (arith, h.bytes) in
    rw used (elim (Bool-cases (length m % 64 == 0)) [
      | inl e ↦ rw e (update_aligned ctx m bs h (ground arith))
      | inr e ↦ rw e (elim (Bool-cases (ltb (length bs) (64 - length m % 64))) [
        | inl f ↦ rw f (update_within ctx m bs h (ground arith))
        | inr f ↦ rw f (update_over ctx m bs h (64 - length m % 64) (omega arith) (ground arith))
      ])
    ])
