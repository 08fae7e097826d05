-- ===== src/Redis/Connection.antt =====
-- demo/src/os/unix/ngx_redis_message.h: `ngx_redis_connection_t`, and the C library's functions that
-- the parser calls.
use nginx_comment.Common.{
  ℕ, suc, ◌+◌, ◌-◌, ◌*◌, ◌/◌, ◌%◌, ◌^◌, Bool, true, false, ◌&&◌, [], ◌∷◌, ◌++◌, ltb, leb, ◌==◌,
  if◌then◌else◌, Bytes, Ptr, Mem, codes,
}

-- The return codes: `NGX_OK`, `NGX_AGAIN` and the `NGX_REDIS_PARSE_*` ones. `overrun` is no code:
-- it stands for a write behind the end of an array, after which C promises nothing.
pub data Code : Type 0 where
  ok again invalid_message invalid_subscribe invalid_channel_name invalid_length overrun : Code

-- An `int` as its 32 bits. `number` and `channel_name` have 20 and 21 bytes.
pub record Connection : Type 0 where
  pub state : ℕ
  pub message_start : Ptr
  pub message_end : Ptr
  pub error_start : Ptr
  pub error_end : Ptr
  pub message_length : ℕ
  pub channel_name_length : ℕ
  pub channel_name_index : ℕ
  pub channel_name : Bytes
  pub channel_message_prefix : Bytes
  pub number_length : ℕ
  pub number : Bytes
  pub number_index : ℕ
  pub error : Bool
  pub after_cr : Bool
  pub parse_done : Bool

-- `x <= 0` of an `int`.
abbrev pub not_positive : ℕ → Bool
not_positive x = if x == 0 then true else leb (2 ^ 31) x

-- `x > k` of an `int`, for a number `k` that is not negative.
abbrev pub above : ℕ → ℕ → Bool
above x k = ltb k x && ltb x (2 ^ 31)

-- `atoi` of a text of digits: its value. C leaves a value that an `int` does not hold undefined;
-- here it is cut to 32 bits.
unfoldable pub atoi_from : ℕ → Bytes → ℕ
atoi_from acc [] = acc
atoi_from acc (c ∷ cs) =
    let rest = atoi_from ((acc * 10 + (c - b'0')) % 2 ^ 32) cs in
    if leb b'0' c && leb c b'9' then rest else acc

abbrev pub atoi : Bytes → ℕ
atoi = atoi_from 0

-- `strlen` of a text that a zero ends.
unfoldable pub strlen : Bytes → ℕ
strlen [] = 0
strlen (c ∷ cs) = if c == 0 then 0 else suc (strlen cs)

-- `ngx_strncmp(p, s, strlen(s)) == 0`, for a text without a zero: bytes are read up to the first
-- that differs.
unfoldable pub starts_with : Mem → Ptr → Bytes → Bool
starts_with mem p [] = true
starts_with mem p (c ∷ cs) =
    let rest = starts_with mem (p + 1) cs in if mem p == c then rest else false

-- `%d` of a number from 0 to 99.
abbrev pub decimal : ℕ → Bytes
decimal n = if ltb n 10 then (b'0' + n) ∷ [] else (b'0' + n / 10) ∷ (b'0' + n % 10) ∷ []

-- What `sprintf` writes to `channel_message_prefix`.
unfoldable pub message_prefix : ℕ → Bytes → Bytes
message_prefix n name =
    codes "*3\r\n$7\r\nmessage\r\n$" ++ (decimal n ++ (codes "\r\n" ++ (name ++ codes "\r\n$")))

abbrev pub subscribe_reply : Bytes
subscribe_reply = codes "3\r\n$9\r\nsubscribe\r\n$"
