-- ===== src/Websocket/Accept.antt =====
-- demo/src/http/ngx_http_request.c: `ngx_websocket_build_accept_key`, the answer to the key of a
-- handshake.
use nginx_comment.Common.{
  ℕ, ◌+◌, ◌-◌, ◌*◌, ◌/◌, ◌≡◌, refl, ap, ◌∙◌, Bool, true, Option, none, some, [], ◌∷◌, ◌++◌,
  if◌then◌else◌, length, replicate, Bytes, codes,
}
use nginx_comment.Encoding.Base64.{encode_base64}
use nginx_comment.Encoding.Base64.RoundTrip.{length-encode_base64}
use nginx_comment.Sha1.Context.{Sha1, init, update, final, regs_bytes}
use nginx_comment.Sha1.Digest.{digest, sha1-digest}

-- `WEBSOCKET_UUID`
abbrev pub websocket_uuid : Bytes
websocket_uuid = codes "258EAFA5-E914-47DA-95CA-C5AB0DC85B11"

-- `encoded.len`: the macro `ngx_base64_encoded_length` for the 20 bytes of a digest, and a zero.
abbrev pub encoded_len : ℕ
encoded_len = (20 + 2) / 3 * 4 + 1

-- `ngx_websocket_build_accept_key`: `allocated` is whether `ngx_pnalloc` returns memory, `buffer`
-- what the context's 64 bytes hold before. The result is the zeroed memory with the text written
-- over its beginning.
unfoldable pub build_accept_key : Bool → Bytes → Bytes → Option Bytes
build_accept_key allocated buffer key =
    let digest = final (update (update (init buffer) key) websocket_uuid) in
    let encoded = encode_base64 digest in
    if allocated then some (encoded ++ replicate (encoded_len - length encoded) 0) else none

length-regs_bytes : (ctx : Sha1) → length (final ctx) ≡ 20
unfolding final regs_bytes
length-regs_bytes ctx = refl

length-encoded : (ctx : Sha1) → length (encode_base64 (final ctx)) ≡ 28
length-encoded ctx =
    length-encode_base64 (final ctx) ∙ ap (λ n. (n + 2) / 3 * 4) (length-regs_bytes ctx)

-- Whatever the context's buffer held, the answer to a key is the base64 text of the SHA-1 digest of
-- the key with the fixed identifier behind it, followed by one zero: it fills exactly the memory
-- that was asked for.
pub build_accept_key-digest :
    (buffer key : Bytes)
    → length buffer ≡ 64
    → build_accept_key true buffer key
      ≡ some (encode_base64 (digest (key ++ websocket_uuid)) ++ 0 ∷ [])
unfolding build_accept_key
build_accept_key-digest buffer key size =
    rw
      (
        length-encoded (update (update (init buffer) key) websocket_uuid),
        sha1-digest buffer (key ∷ websocket_uuid ∷ []) size,
      )
      refl
