-- ===== src/Encoding/Base64.antt =====
-- demo/src/core/ngx_string.c: `ngx_encode_base64` and `ngx_encode_base64_internal`.
pub mod RoundTrip
use Prim.Native.Nat.{bit_and, bit_or}
use nginx_comment.Common.{
  ℕ, ◌*◌, ◌/◌, Bool, true, [], ◌∷◌, ◌++◌, if◌then◌else◌, get_or, Bytes, codes,
}

abbrev pub basis64 : Bytes
basis64 = codes "ABCDEFGHIJKLMNOPQRSTUVWXYZabcdefghijklmnopqrstuvwxyz0123456789+/"

-- The four numbers of six bits that the code takes from a group of bytes.
abbrev pub sextet0 : ℕ → ℕ
sextet0 s0 = bit_and (s0 / 4) 0x3f

abbrev pub sextet1 : ℕ → ℕ → ℕ
sextet1 s0 s1 = bit_or (bit_and s0 3 * 16) (s1 / 16)

abbrev pub sextet2 : ℕ → ℕ → ℕ
sextet2 s1 s2 = bit_or (bit_and s1 0x0f * 4) (s2 / 64)

-- `ngx_encode_base64_internal`: what is written to `dst->data`. The tables have 64 characters, and
-- no index reaches past them.
unfoldable pub encode_base64_internal : Bytes → Bool → Bytes → Bytes
encode_base64_internal basis padding [] = []
encode_base64_internal basis padding (s0 ∷ []) =
    get_or basis (sextet0 s0) 0
    ∷ get_or basis (bit_and s0 3 * 16) 0
    ∷ (if padding then b'=' ∷ b'=' ∷ [] else [])
encode_base64_internal basis padding (s0 ∷ s1 ∷ []) =
    get_or basis (sextet0 s0) 0
    ∷ get_or basis (sextet1 s0 s1) 0
    ∷ get_or basis (bit_and s1 0x0f * 4) 0
    ∷ (if padding then b'=' ∷ [] else [])
encode_base64_internal basis padding (s0 ∷ s1 ∷ s2 ∷ rest) =
    get_or basis (sextet0 s0) 0
    ∷ get_or basis (sextet1 s0 s1) 0
    ∷ get_or basis (sextet2 s1 s2) 0
    ∷ get_or basis (bit_and s2 0x3f) 0
    ∷ encode_base64_internal basis padding rest

-- `ngx_encode_base64`
unfoldable pub encode_base64 : Bytes → Bytes
unfolding encode_base64_internal
encode_base64 = encode_base64_internal basis64 true
