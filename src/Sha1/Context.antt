-- ===== src/Sha1/Context.antt =====
-- demo/src/core/ngx_sha1.c: `ngx_sha1_init`, `ngx_sha1_update` and `ngx_sha1_final`.
use nginx_comment.Common.{
  ℕ, ◌+◌, ◌-◌, ◌*◌, ◌/◌, ◌%◌, ◌^◌, [], ◌∷◌, ◌++◌, ltb, leb, ◌==◌, if◌then◌else◌, take, drop, length,
  replicate, Bytes,
}
use nginx_comment.Sha1.Block.{Regs, body}

-- `ngx_sha1_t`: `bytes` is a `uint64_t` and `buffer` has 64 bytes.
pub record Sha1 : Type 0 where
  pub bytes : ℕ
  pub regs : Regs
  pub buffer : Bytes

abbrev pub u64 : ℕ → ℕ
u64 n = n % 2 ^ 64

abbrev pub initial : Regs
initial = record { a = 0x67452301; b = 0xefcdab89; c = 0x98badcfe; d = 0x10325476; e = 0xc3d2e1f0 }

-- `ngx_sha1_init`. The buffer's bytes are what they were.
unfoldable pub init : Bytes → Sha1
init buffer = record { bytes = 0; regs = initial; buffer = buffer }

-- `ngx_memcpy(&buffer[at], data, length data)`, which the callers keep within the buffer.
abbrev pub copy_at : ℕ → Bytes → Bytes → Bytes
copy_at at bs buffer = take at buffer ++ (bs ++ drop (at + length bs) buffer)

-- The end of `ngx_sha1_update`, from `if (size >= 64)` on: whole blocks, then the rest is kept.
unfoldable pub update_blocks : Sha1 → Bytes → Sha1
update_blocks ctx bs =
    let (regs, rest) = body (length bs / 64) ctx.regs bs in
    if leb 64 (length bs)
    then record ctx { regs = regs; buffer = copy_at 0 rest ctx.buffer }
    else record ctx { buffer = copy_at 0 bs ctx.buffer }

unfoldable pub update : Sha1 → Bytes → Sha1
update ctx0 bs =
    let used = ctx0.bytes % 64 in
    let ctx = record ctx0 { bytes = u64 (ctx0.bytes + length bs) } in
    let free = 64 - used in
    let full = copy_at used (take free bs) ctx.buffer in
    if used == 0
    then update_blocks ctx bs
    else if ltb (length bs) free
    then record ctx { buffer = copy_at used bs ctx.buffer }
    else update_blocks (record ctx { regs = (body 1 ctx.regs full).0; buffer = full })
        (drop free bs)

-- The lowest eight bits of a shifted word.
abbrev pub byte : ℕ → ℕ → ℕ
byte w shift = w / 2 ^ shift % 2 ^ 8

abbrev pub word_bytes : ℕ → Bytes
word_bytes w = byte w 24 ∷ byte w 16 ∷ byte w 8 ∷ byte w 0 ∷ []

-- The eight bytes of the length in bits.
unfoldable pub length_bytes : ℕ → Bytes
length_bytes n =
    byte n 56 ∷ byte n 48 ∷ byte n 40 ∷ byte n 32 ∷ byte n 24 ∷ byte n 16 ∷ byte n 8 ∷ byte n 0 ∷ []

unfoldable pub regs_bytes : Regs → Bytes
regs_bytes r =
    word_bytes r.a ++ (word_bytes r.b ++ (word_bytes r.c ++ (word_bytes r.d ++ word_bytes r.e)))

-- The last block of `ngx_sha1_final`: zeros from `used` on, and the length in bits.
unfoldable pub last_block : ℕ → Regs → ℕ → Bytes → Regs
last_block bytes regs used buffer =
    let cleared = copy_at used (replicate (64 - used - 8) 0) buffer in
    (body 1 regs (copy_at 56 (length_bytes (u64 (bytes * 8))) cleared)).0

-- `ngx_sha1_final`: the registers behind the padding, and the digest that is made of them. The
-- context is zeroed behind it.
unfoldable pub final_regs : Sha1 → Regs
final_regs ctx =
    let used = ctx.bytes % 64 in
    let marked = copy_at used (0x80 ∷ []) ctx.buffer in
    let free = 64 - (used + 1) in
    let padded = copy_at (used + 1) (replicate free 0) marked in
    if ltb free 8
    then last_block ctx.bytes (body 1 ctx.regs padded).0 0 padded
    else last_block ctx.bytes ctx.regs (used + 1) marked

unfoldable pub final : Sha1 → Bytes
final ctx = regs_bytes (final_regs ctx)
