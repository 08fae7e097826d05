-- ===== src/Websocket/Frame.antt =====
-- demo/src/http/ngx_websocket.c: `ngx_websocket_frame_encode`, with the macros of ngx_websocket.h.
pub mod RoundTrip
use Prim.Native.Nat.{bit_and, bit_or}
use nginx_comment.Common.{
  ℕ, ◌+◌, ◌*◌, ◌/◌, ◌%◌, ◌^◌, [], ◌∷◌, ◌++◌, ltb, if◌then◌else◌, take, length, Bytes,
}

-- `WEBSOCKET_FRAME_SET_FIN`, and `WEBSOCKET_FRAME_SET_MASK`, which is the same.
abbrev pub set_fin : ℕ → ℕ
set_fin byte = bit_and byte 1 * 128

abbrev pub set_opcode : ℕ → ℕ
set_opcode byte = bit_and byte 0x0f

-- `WEBSOCKET_FRAME_SET_LENGTH`: the byte of a number with the given index.
abbrev pub set_length : ℕ → ℕ → ℕ
set_length x index = x / 2 ^ (index * 8) % 256

-- What is written to `frame_header` behind its first byte; `mask` is 0.
unfoldable pub length_header : ℕ → Bytes
length_header n =
    if ltb n 126
    then bit_or (set_fin 0) (set_length n 0) ∷ []
    else if ltb n 65536
    then bit_or (set_fin 0) 126 ∷ set_length n 1 ∷ set_length n 0 ∷ []
    else bit_or (set_fin 0) 127
      ∷ set_length n 7
      ∷ set_length n 6
      ∷ set_length n 5
      ∷ set_length n 4
      ∷ set_length n 3
      ∷ set_length n 2
      ∷ set_length n 1
      ∷ set_length n 0
      ∷ []

unfoldable pub frame_header : ℕ → ℕ → ℕ → Bytes
frame_header opcode finish n = bit_or (set_fin finish) (set_opcode opcode) ∷ length_header n

-- `ngx_websocket_frame_encode`: the bytes written to `buffer`, the last a zero, and the number
-- returned, which does not count it.
unfoldable pub frame_encode : Bytes → ℕ → ℕ → ℕ → Bytes × ℕ
frame_encode message opcode finish n =
    let header = frame_header opcode finish n in
    (header ++ (take n message ++ 0 ∷ []), length header + n)
