-- ===== src/Encoding/Base64/RoundTrip.antt =====
-- The encoding is that of the standard: a decoder of it gives the bytes back, and the text has the
-- length for which `ngx_base64_encoded_length` makes room.
use Prim.Native.Nat.{bit_and, bit_or}
use nginx_comment.Common.{
  ℕ, ◌+◌, ◌-◌, ◌*◌, ◌/◌, ◌%◌, ◌<◌, ◌≡◌, refl, ap, ◌∙◌, Bool, true, false, not, ◌&&◌, [], ◌∷◌, arith,
  ◌==◌, ==_iff, leb, if◌then◌else◌, get_or, length, Bytes,
}
use nginx_comment.Common.Bits.{
  passes, at-passes, bit_or_4_16, bit_or_16_4, bit_and_3, bit_and_15, bit_and_63,
}
use nginx_comment.Encoding.Base64.{
  basis64, sextet0, sextet1, sextet2, encode_base64_internal, encode_base64,
}

abbrev pub AllBytes : Bytes → Type 0
AllBytes [] = Unit
AllBytes (c ∷ cs) = (c < 256) × AllBytes cs

-- The number that a character of the alphabet stands for.
unfoldable pub value_of : ℕ → ℕ
value_of c =
    if leb b'A' c && leb c b'Z'
    then c - b'A'
    else if leb b'a' c && leb c b'z'
    then c - b'a' + 26
    else if leb b'0' c && leb c b'9'
    then c - b'0' + 52
    else if c == b'+'
    then 62
    else 63

-- A decoder by arithmetic on the 24 bits of four characters.
unfoldable pub decode : Bytes → Bytes
decode (c0 ∷ c1 ∷ c2 ∷ c3 ∷ rest) =
    let bits =
      value_of c0 * 262144
      + value_of c1 * 4096
      + (if c2 == b'=' then 0 else value_of c2 * 64)
      + (if c3 == b'=' then 0 else value_of c3) in
    if c2 == b'='
    then bits / 65536 ∷ []
    else if c3 == b'='
    then bits / 65536 ∷ bits / 256 % 256 ∷ []
    else bits / 65536 ∷ bits / 256 % 256 ∷ bits % 256 ∷ decode rest
decode _ = []

table :
    passes (λ i. value_of (get_or basis64 i 0) == i && not (get_or basis64 i 0 == b'=')) 64 ≡ true
unfolding passes value_of
table = refl

both : (x y : Bool) → (x && not y) ≡ true → (x ≡ true) × (y ≡ false)
both x y h = ground arith

-- The character `c` stands for the number `i`.
abbrev StandsFor : ℕ → ℕ → Type 0
StandsFor c i = (value_of c ≡ i) × ((c == b'=') ≡ false)

basis-StandsFor : (i : ℕ) → i < 64 → StandsFor (get_or basis64 i 0) i
basis-StandsFor i h =
    let (v, e) = both (value_of (get_or basis64 i 0) == i) (get_or basis64 i 0 == b'=') (
      at-passes (λ i. value_of (get_or basis64 i 0) == i && not (get_or basis64 i 0 == b'=')) h
        table) in
    ((==_iff (value_of (get_or basis64 i 0)) i).0 v, e)

module _ (c0 c1 c2 c3 i0 i1 i2 i3 : ℕ) (rest : Bytes) where
  decode_group :
      StandsFor c0 i0
      → StandsFor c1 i1
      → StandsFor c2 i2
      → StandsFor c3 i3
      → i0 < 64
      → i1 < 64
      → i2 < 64
      → i3 < 64
      → decode (c0 ∷ c1 ∷ c2 ∷ c3 ∷ rest)
        ≡ (i0 * 4 + i1 / 16) ∷ (i1 % 16 * 16 + i2 / 4) ∷ (i2 % 4 * 64 + i3) ∷ decode rest
  unfolding decode
  decode_group h0 h1 h2 h3 l0 l1 l2 l3 = ground arith

  decode_two :
      StandsFor c0 i0
      → StandsFor c1 i1
      → StandsFor c2 i2
      → i0 < 64
      → i1 < 64
      → i2 < 64
      → decode (c0 ∷ c1 ∷ c2 ∷ b'=' ∷ []) ≡ (i0 * 4 + i1 / 16) ∷ (i1 % 16 * 16 + i2 / 4) ∷ []
  unfolding decode
  decode_two h0 h1 h2 l0 l1 l2 = ground arith

  decode_one :
      StandsFor c0 i0
      → StandsFor c1 i1
      → i0 < 64
      → i1 < 64
      → decode (c0 ∷ c1 ∷ b'=' ∷ b'=' ∷ []) ≡ (i0 * 4 + i1 / 16) ∷ []
  unfolding decode
  decode_one h0 h1 l0 l1 = ground arith

-- The numbers of six bits, as arithmetic.
sextet0_lem : (a : ℕ) → a < 256 → sextet0 a ≡ a / 4
sextet0_lem a h = bit_and_63 (a / 4) (omega arith) ∙ omega arith

sextet1_lem : (a b : ℕ) → a < 256 → b < 256 → sextet1 a b ≡ a % 4 * 16 + b / 16
sextet1_lem a b h k =
    ap (λ x. bit_or (x * 16) (b / 16)) (bit_and_3 a h)
    ∙ bit_or_4_16 (a % 4) (b / 16) (omega arith) (omega arith)

sextet2_lem : (a b : ℕ) → a < 256 → b < 256 → sextet2 a b ≡ a % 16 * 4 + b / 64
sextet2_lem a b h k =
    ap (λ x. bit_or (x * 4) (b / 64)) (bit_and_15 a h)
    ∙ bit_or_16_4 (a % 16) (b / 64) (omega arith) (omega arith)

-- The character at an index that equals the number `i`.
at-StandsFor : (x i : ℕ) → x ≡ i → i < 64 → StandsFor (get_or basis64 x 0) i
at-StandsFor x i e h = rw e (basis-StandsFor i h)

-- The bytes that the numbers of six bits give back.
module _ (a b c : ℕ) (p : a < 256) (q : b < 256) (r : c < 256) where
  byte0 : a / 4 * 4 + (a % 4 * 16 + b / 16) / 16 ≡ a
  byte0 = omega arith

  byte1 : (a % 4 * 16 + b / 16) % 16 * 16 + (b % 16 * 4 + c / 64) / 4 ≡ b
  byte1 = omega arith

  byte2 : (b % 16 * 4 + c / 64) % 4 * 64 + c % 64 ≡ c
  byte2 = omega arith

sextet1_end : (a : ℕ) → a < 256 → bit_and a 3 * 16 ≡ a % 4 * 16 + 0 / 16
sextet1_end a h = ap (λ x. x * 16) (bit_and_3 a h) ∙ omega arith

sextet2_end : (b : ℕ) → b < 256 → bit_and b 0x0f * 4 ≡ b % 16 * 4 + 0 / 64
sextet2_end b h = ap (λ x. x * 4) (bit_and_15 b h) ∙ omega arith

-- For every list of bytes, decoding its encoding by `ngx_encode_base64` gives the list back.
pub decode-encode_base64 : (bs : Bytes) → AllBytes bs → decode (encode_base64 bs) ≡ bs
unfolding encode_base64 encode_base64_internal decode
decode-encode_base64 [] h = refl
decode-encode_base64 (a ∷ []) (p, _) =
    decode_one _ _ 0 0 _ _ 0 0 [] (at-StandsFor (sextet0 a) _ (sextet0_lem a p) (omega arith))
      (at-StandsFor (bit_and a 3 * 16) _ (sextet1_end a p) (omega arith)) (omega arith)
      (omega arith)
    ∙ rw (byte0 a 0 0 p (omega arith) (omega arith)) refl
decode-encode_base64 (a ∷ b ∷ []) (p, (q, _)) =
    decode_two _ _ _ 0 _ _ _ 0 [] (at-StandsFor (sextet0 a) _ (sextet0_lem a p) (omega arith))
      (at-StandsFor (sextet1 a b) _ (sextet1_lem a b p q) (omega arith))
      (at-StandsFor (bit_and b 0x0f * 4) _ (sextet2_end b q) (omega arith)) (omega arith)
      (omega arith) (omega arith)
    ∙ rw (byte0 a b 0 p q (omega arith), byte1 a b 0 p q (omega arith)) refl
decode-encode_base64 (a ∷ b ∷ c ∷ rest) (p, (q, (r, h))) =
    decode_group _ _ _ _ _ _ _ _ (encode_base64_internal basis64 true rest)
      (at-StandsFor (sextet0 a) _ (sextet0_lem a p) (omega arith))
      (at-StandsFor (sextet1 a b) _ (sextet1_lem a b p q) (omega arith))
      (at-StandsFor (sextet2 b c) _ (sextet2_lem b c q r) (omega arith))
      (at-StandsFor (bit_and c 0x3f) _ (bit_and_63 c r) (omega arith)) (omega arith) (omega arith)
      (omega arith) (omega arith)
    ∙ rw (byte0 a b c p q r, byte1 a b c p q r, byte2 a b c p q r, decode-encode_base64 rest h) refl

-- The text has four characters for every three bytes begun, the room that the macro
-- `ngx_base64_encoded_length` computes.
pub length-encode_base64 : (bs : Bytes) → length (encode_base64 bs) ≡ (length bs + 2) / 3 * 4
unfolding encode_base64 encode_base64_internal
length-encode_base64 [] = omega arith
length-encode_base64 (a ∷ []) = omega arith
length-encode_base64 (a ∷ b ∷ []) = omega arith
length-encode_base64 (a ∷ b ∷ c ∷ rest) = omega (arith, length-encode_base64 rest)
