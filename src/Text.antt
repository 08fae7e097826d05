-- ===== src/Text.antt =====
-- demo/src/core/ngx_string.c: `ngx_sprintf_num`, by which `ngx_vslprintf` prints a number.
pub mod Numbers
pub mod Format
use Prim.Native.Nat.{bit_and, min}
use nginx_comment.Common.{
  ℕ, zero, suc, ◌+◌, ◌-◌, ◌/◌, ◌%◌, [], ◌∷◌, ◌++◌, ◌==◌, if◌then◌else◌, get_or, length, replicate,
  take, Bytes, codes,
}

-- The first loop, which is the same for numbers of 32 and of 64 bits: the digits are written in front of those in `temp`, and there is room for so many.
unfoldable pub decimal_digits : ℕ → ℕ → Bytes → Bytes
decimal_digits zero n temp = temp
decimal_digits (suc room) n temp =
    let more = decimal_digits room (n / 10) ((n % 10 + b'0') ∷ temp) in
    if n / 10 == 0 then (n % 10 + b'0') ∷ temp else more

-- The loops for the two alphabets of hexadecimal digits.
unfoldable pub hex_digits : Bytes → ℕ → ℕ → Bytes → Bytes
hex_digits alphabet zero n temp = temp
hex_digits alphabet (suc room) n temp =
    let more = hex_digits alphabet room (n / 16) (get_or alphabet (bit_and n 0xf) 0 ∷ temp) in
    if n / 16 == 0 then get_or alphabet (bit_and n 0xf) 0 ∷ temp else more

-- `NGX_INT64_LEN`: the length of "-9223372036854775808".
abbrev pub int64_len : ℕ
int64_len = 20

-- What stands from `p` to the end of `temp`.
unfoldable pub number_text : ℕ → ℕ → Bytes
unfolding decimal_digits hex_digits
number_text hexadecimal n =
    if hexadecimal == 0
    then decimal_digits int64_len n []
    else if hexadecimal == 1
    then hex_digits (codes "0123456789abcdef") int64_len n []
    else hex_digits (codes "0123456789ABCDEF") int64_len n []

-- `ngx_sprintf_num`: the bytes written from `buf` on, where `room` is `last - buf`; the pointer that
-- is returned stands behind them.
unfoldable pub sprintf_num : ℕ → ℕ → ℕ → ℕ → ℕ → Bytes
sprintf_num room n fill hexadecimal width =
    let text = number_text hexadecimal n in
    let padding = min (width - length text) room in
    replicate padding fill ++ take (room - padding) text
