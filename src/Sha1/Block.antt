-- ===== src/Sha1/Block.antt =====
-- demo/src/core/ngx_sha1.c: `ngx_sha1_body`, one block of 64 bytes at a time.
use Prim.Native.Nat.{bit_and, bit_or, bit_xor}
use nginx_comment.Common.{
  ℕ, zero, suc, ◌+◌, ◌-◌, ◌*◌, ◌/◌, ◌%◌, ◌^◌, List, [], ◌∷◌, ltb, if◌then◌else◌, take, drop, get_or,
  Bytes,
}

-- The five words `a` to `e` of `ngx_sha1_t`, each a `uint32_t`.
pub record Regs : Type 0 where
  pub a : ℕ
  pub b : ℕ
  pub c : ℕ
  pub d : ℕ
  pub e : ℕ

abbrev pub u32 : ℕ → ℕ
u32 n = n % 2 ^ 32

-- `ROTATE`
pub rotate : ℕ → ℕ → ℕ
rotate bits word = bit_or (u32 (word * 2 ^ bits)) (word / 2 ^ (32 - bits))

-- `~`
abbrev complement : ℕ → ℕ
complement w = 2 ^ 32 - 1 - w

-- `F1`, `F2`, `F3`
pub f1 : ℕ → ℕ → ℕ → ℕ
f1 b c d = bit_or (bit_and b c) (bit_and (complement b) d)

pub f2 : ℕ → ℕ → ℕ → ℕ
f2 b c d = bit_xor (bit_xor b c) d

pub f3 : ℕ → ℕ → ℕ → ℕ
f3 b c d = bit_or (bit_or (bit_and b c) (bit_and b d)) (bit_and c d)

-- `STEP`
pub step : (ℕ → ℕ → ℕ → ℕ) → Regs → ℕ → ℕ → Regs
step f r w t = record {
  a = u32 (rotate 5 r.a + f r.b r.c r.d + r.e + w + t);
  b = r.a;
  c = rotate 30 r.b;
  d = r.c;
  e = r.d;
}

-- `GET`: four bytes, the first one highest.
pub get : Bytes → ℕ → ℕ
get p n =
    bit_or
      (bit_or (bit_or (get_or p (n * 4 + 3) 0) (get_or p (n * 4 + 2) 0 * 2 ^ 8))
        (get_or p (n * 4 + 1) 0 * 2 ^ 16))
      (get_or p (n * 4) 0 * 2 ^ 24)

-- The words loaded from a block, newest first: `i` is the number of the next.
load_words : ℕ → ℕ → Bytes → List ℕ → List ℕ
load_words zero i p words = words
load_words (suc n) i p words = load_words n (i + 1) p (get p i ∷ words)

-- The words behind those, each from the 3rd, 8th, 14th and 16th before it.
extend_words : ℕ → List ℕ → List ℕ
extend_words zero words = words
extend_words (suc n) words =
    let mixed =
      bit_xor (bit_xor (bit_xor (get_or words 2 0) (get_or words 7 0)) (get_or words 13 0))
        (get_or words 15 0) in
    extend_words n (rotate 1 mixed ∷ words)

-- The eighty steps, in four groups of twenty.
transform : ℕ → Regs → List ℕ → Regs
transform i r [] = r
transform i r (w ∷ words) =
    let next =
      if ltb i 20
      then step f1 r w 0x5a827999
      else if ltb i 40
      then step f2 r w 0x6ed9eba1
      else if ltb i 60
      then step f3 r w 0x8f1bbcdc
      else step f2 r w 0xca62c1d6 in
    transform (i + 1) next words

onto : List ℕ → List ℕ → List ℕ
onto [] done = done
onto (w ∷ words) done = onto words (w ∷ done)

-- One round of the loop over blocks.
unfoldable pub block : Regs → Bytes → Regs
unfolding transform onto extend_words load_words get step f1 f2 f3 rotate
block r p =
    let t = transform 0 r (onto (extend_words 64 (load_words 16 0 p [])) []) in
    record {
      a = u32 (t.a + r.a);
      b = u32 (t.b + r.b);
      c = u32 (t.c + r.c);
      d = u32 (t.d + r.d);
      e = u32 (t.e + r.e);
    }

-- The loop, over so many blocks, and the bytes where it stops. `ngx_sha1_body` is called with a
-- `size` that is a positive multiple of 64, so that its loop has `size / 64` rounds.
unfoldable pub body : ℕ → Regs → Bytes → Regs × Bytes
body zero r p = (r, p)
body (suc n) r p = body n (block r (take 64 p)) (drop 64 p)
