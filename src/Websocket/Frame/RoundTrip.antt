-- ===== src/Websocket/Frame/RoundTrip.antt =====
-- A frame is read back as the standard says, and has the length that is returned.
use Prim.Native.Nat.{bit_and, bit_or}
use nginx_comment.Common.{
  ℕ, zero, suc, ◌+◌, ◌*◌, ◌/◌, ◌%◌, ◌^◌, ◌≤◌, ◌<◌, ◌≡◌, refl, ap, ◌∙◌, Option, none, some, [], ◌∷◌,
  ◌++◌, arith, ◌==◌, ltb, ltb→lt, ltb→ge, if◌then◌else◌, take, drop, length, length-append, Bytes,
  Bool-cases, inl, inr,
}
use nginx_comment.Common.Bits.{bit_or_2_128, bit_and_1, bit_and_15}
use nginx_comment.Websocket.Frame.{
  set_fin, set_opcode, set_length, length_header, frame_header, frame_encode,
}

-- A frame as RFC 6455 has it; the reserved bits are those between the first and the opcode.
pub record Frame : Type 0 where
  pub fin : ℕ
  pub reserved : ℕ
  pub opcode : ℕ
  pub masked : ℕ
  pub payload : Bytes
  pub rest : Bytes

-- A number of the first `k` bytes, the highest first, and the bytes behind.
unfoldable pub read_number : ℕ → ℕ → Bytes → ℕ × Bytes
read_number zero acc bs = (acc, bs)
read_number (suc k) acc [] = (acc, [])
read_number (suc k) acc (b ∷ bs) = read_number k (acc * 256 + b) bs

unfoldable pub read_length : ℕ → Bytes → ℕ × Bytes
read_length n bs =
    if n == 126 then read_number 2 0 bs else if n == 127 then read_number 8 0 bs else (n, bs)

-- A decoder of frames without a mask.
unfoldable pub decode_frame : Bytes → Option Frame
unfolding read_length
decode_frame (b0 ∷ b1 ∷ bs) =
    let (n, content) = read_length (b1 % 128) bs in
    some (record {
      fin = b0 / 128;
      reserved = b0 / 16 % 8;
      opcode = b0 % 16;
      masked = b1 / 128;
      payload = take n content;
      rest = drop n content;
    })
decode_frame _ = none

first_byte :
    (finish opcode : ℕ)
    → finish < 256
    → opcode < 256
    → bit_or (set_fin finish) (set_opcode opcode) ≡ finish % 2 * 128 + opcode % 16
first_byte finish opcode h k =
    ap (λ x. bit_or (x * 128) (bit_and opcode 0x0f)) (bit_and_1 finish h)
    ∙ ap (λ x. bit_or (finish % 2 * 128) x) (bit_and_15 opcode k)
    ∙ bit_or_2_128 (finish % 2) (opcode % 16) (omega arith) (omega arith)

short_byte : (n : ℕ) → n < 126 → bit_or (set_fin 0) (set_length n 0) ≡ n
short_byte n h =
    ap (bit_or 0) {x = n / 1 % 256} {y = n} (omega arith)
    ∙ bit_or_2_128 0 n (omega arith) (omega arith)
    ∙ omega arith

-- The number behind the second byte.
two_bytes : (n : ℕ) → n < 65536 → (0 * 256 + set_length n 1) * 256 + set_length n 0 ≡ n
two_bytes n h = omega arith

eight_bytes :
    (n : ℕ)
    → n < 2 ^ 64
    → (((((((0 * 256 + set_length n 7) * 256 + set_length n 6) * 256 + set_length n 5) * 256
                        + set_length n 4)
                      * 256
                    + set_length n 3)
                  * 256
                + set_length n 2)
              * 256
            + set_length n 1)
          * 256
        + set_length n 0
      ≡ n
eight_bytes n h = omega arith

-- What a header's length is read as, when the header stands before `content`.
record Read (n : ℕ) (content : Bytes) : Type 0 where
  lead : ℕ
  tail : Bytes
  header : length_header n ≡ lead ∷ tail
  unmasked : lead / 128 ≡ 0
  read : read_length (lead % 128) (tail ++ content) ≡ (n, content)

Read-short : (n : ℕ) (content : Bytes) → n < 126 → Read n content
unfolding length_header read_length
Read-short n content h = record {
  lead = n;
  tail = [];
  header = ground (arith, short_byte n h);
  unmasked = omega arith;
  read = ground arith;
}

Read-medium : (n : ℕ) (content : Bytes) → 126 ≤ n → n < 65536 → Read n content
unfolding length_header read_length read_number
Read-medium n content h k = record {
  lead = 126;
  tail = set_length n 1 ∷ set_length n 0 ∷ [];
  header = ground arith;
  unmasked = omega arith;
  read = ap (λ x. (x, content)) (two_bytes n k);
}

Read-long : (n : ℕ) (content : Bytes) → 65536 ≤ n → n < 2 ^ 64 → Read n content
unfolding length_header read_length read_number
Read-long n content h k = record {
  lead = 127;
  tail =
      set_length n 7
      ∷ set_length n 6
      ∷ set_length n 5
      ∷ set_length n 4
      ∷ set_length n 3
      ∷ set_length n 2
      ∷ set_length n 1
      ∷ set_length n 0
      ∷ [];
  header = ground arith;
  unmasked = omega arith;
  read = ap (λ x. (x, content)) (eight_bytes n k);
}

Read-header : (n : ℕ) (content : Bytes) → n < 2 ^ 64 → Read n content
Read-header n content h = elim (Bool-cases (ltb n 126)) [
  | inl e ↦ Read-short n content (ltb→lt _ _ e)
  | inr e ↦ elim (Bool-cases (ltb n 65536)) [
    | inl f ↦ Read-medium n content (ltb→ge _ _ e) (ltb→lt _ _ f)
    | inr f ↦ Read-long n content (ltb→ge _ _ f) h
  ]
]

take_all : (m r : Bytes) → take (length m) (m ++ r) ≡ m
take_all [] r = refl
take_all (b ∷ m) r = ap (◌∷◌ b) (take_all m r)

drop_all : (m r : Bytes) → drop (length m) (m ++ r) ≡ r
drop_all [] r = refl
drop_all (b ∷ m) r = drop_all m r

take_self : (m : Bytes) → take (length m) m ≡ m
take_self [] = refl
take_self (b ∷ m) = ap (◌∷◌ b) (take_self m)

length-length_header :
    (n : ℕ)
    → length (length_header n) + 2 ≡ (if ltb n 126 then 3 else if ltb n 65536 then 5 else 11)
unfolding length_header
length-length_header n = ground arith

decode_parts :
    (f o b1 n : ℕ) (bs content : Bytes)
    → f < 2
    → o < 16
    → b1 / 128 ≡ 0
    → read_length (b1 % 128) bs ≡ (n, content)
    → decode_frame ((f * 128 + o) ∷ b1 ∷ bs)
      ≡ some (record {
        fin = f;
        reserved = 0;
        opcode = o;
        masked = 0;
        payload = take n content;
        rest = drop n content;
      })
unfolding decode_frame
decode_parts f o b1 n bs content hf ho m e =
    let x : (f * 128 + o) / 128 ≡ f = omega arith in
    let y : (f * 128 + o) / 16 % 8 ≡ 0 = omega arith in
    let z : (f * 128 + o) % 16 ≡ o = omega arith in rw (x, y, z, m, e) refl

-- The frame that `ngx_websocket_frame_encode` writes for a message of less than 2^64 bytes is read
-- back with the flag, the opcode and the message that went in, no mask and no reserved bit, whichever
-- of the three forms its length has; behind it is the zero that ends the string.
pub decode_frame-frame_encode :
    (message : Bytes) (opcode finish : ℕ)
    → opcode < 256
    → finish < 256
    → length message < 2 ^ 64
    → decode_frame (frame_encode message opcode finish (length message)).0
      ≡ some (record {
        fin = finish % 2;
        reserved = 0;
        opcode = opcode % 16;
        masked = 0;
        payload = message;
        rest = 0 ∷ [];
      })
unfolding frame_encode frame_header decode_frame
decode_frame-frame_encode message opcode finish h k l =
    let body : Bytes = take (length message) message ++ 0 ∷ [] in
    let r = Read-header (length message) body l in
    rw (first_byte finish opcode k h, r.header)
      (decode_parts (finish % 2) (opcode % 16) r.lead (length message) (r.tail ++ body) body
          (omega arith) (omega arith) r.unmasked r.read
        ∙ rw (take_self message, take_all message (0 ∷ []), drop_all message (0 ∷ [])) refl)

-- The number that it returns is that of the bytes written before the zero, and with the zero the
-- frame takes 3 bytes more than a message of less than 126 bytes, 5 more than one of less than
-- 65536, and 11 more than a longer one.
pub frame_encode_size :
    (message : Bytes) (opcode finish : ℕ)
    → (length (frame_encode message opcode finish (length message)).0
        ≡ (frame_encode message opcode finish (length message)).1 + 1)
      × (length (frame_encode message opcode finish (length message)).0
          ≡ length message
            + (if ltb (length message) 126
                then 3
                else if ltb (length message) 65536
                then 5
                else 11))
unfolding frame_encode frame_header
frame_encode_size message opcode finish =
    let n = length message in
    let e : length (frame_header opcode finish n ++ (take n message ++ 0 ∷ []))
        ≡ length (frame_header opcode finish n) + n + 1 =
      omega (
        arith,
        length-append (frame_header opcode finish n) (take n message ++ 0 ∷ []),
        length-append (take n message) (0 ∷ []),
        ap length (take_self message),
      ) in
    (omega (arith, e), omega (arith, e, length-length_header n))
