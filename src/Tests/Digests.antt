-- ===== src/Tests/Digests.antt =====
-- Digests, encodings and frames.
use nginx_comment.Common.{
  ◌+◌, ◌≡◌, refl, [], ◌∷◌, ◌++◌, List, some, true, arith, length, replicate, Bytes, codes,
}
use nginx_comment.Sha1.Context.{init, final, regs_bytes, length_bytes}
use nginx_comment.Sha1.Block.{body, block}
use nginx_comment.Sha1.Digest.{digest, update_all, sha1-digest}
use nginx_comment.Encoding.Base64.{encode_base64, encode_base64_internal}
use nginx_comment.Encoding.Base64.RoundTrip.{decode, decode-encode_base64}
use nginx_comment.Websocket.Frame.{frame_encode}
use nginx_comment.Websocket.Frame.RoundTrip.{
  decode_frame, decode_frame-frame_encode, frame_encode_size,
}
use nginx_comment.Websocket.Accept.{websocket_uuid, build_accept_key, build_accept_key-digest}

abbrev zeros : Bytes
zeros = replicate 64 0

abbrev parts : List Bytes
parts = codes "a" ∷ codes "bc" ∷ []

-- The digest of "abc" that the standard gives.
digest_abc :
    digest (codes "abc")
    ≡ 0xa9 ∷ 0x99 ∷ 0x3e ∷ 0x36 ∷ 0x47 ∷ 0x06 ∷ 0x81 ∷ 0x6a ∷ 0xba ∷ 0x3e ∷ 0x25 ∷ 0x71 ∷ 0x78
      ∷ 0x50 ∷ 0xc2 ∷ 0x6c ∷ 0x9c ∷ 0xd0 ∷ 0xd8 ∷ 0x9d ∷ []
unfolding digest regs_bytes body length_bytes block
digest_abc = refl

sha1-digest_example : final (update_all (init zeros) parts) ≡ digest (codes "abc")
sha1-digest_example = sha1-digest zeros parts refl

decode-encode_base64_example : decode (encode_base64 (codes "Man!")) ≡ codes "Man!"
decode-encode_base64_example = decode-encode_base64 (codes "Man!") (omega arith)

decode_frame-frame_encode_example :
    decode_frame (frame_encode (codes "hello") 1 1 5).0
    ≡ some (record {
      fin = 1;
      reserved = 0;
      opcode = 1;
      masked = 0;
      payload = codes "hello";
      rest = 0 ∷ [];
    })
decode_frame-frame_encode_example =
    decode_frame-frame_encode (codes "hello") 1 1 (omega arith) (omega arith) (omega arith)

-- A message of 252 bytes, which the redis parser lets through, needs 257.
frame_encode_size_example :
    (length (frame_encode (replicate 252 0) 1 1 252).0
      ≡ (frame_encode (replicate 252 0) 1 1 252).1 + 1)
    × (length (frame_encode (replicate 252 0) 1 1 252).0 ≡ 257)
frame_encode_size_example = frame_encode_size (replicate 252 0) 1 1

abbrev handshake_key : Bytes
handshake_key = codes "dGhlIHNhbXBsZSBub25jZQ=="

build_accept_key-digest_example :
    build_accept_key true zeros handshake_key
    ≡ some (encode_base64 (digest (handshake_key ++ websocket_uuid)) ++ 0 ∷ [])
build_accept_key-digest_example = build_accept_key-digest zeros handshake_key refl

-- The example of RFC 6455.
accept_of_the_standard :
    encode_base64 (digest (handshake_key ++ websocket_uuid)) ≡ codes "s3pPLMBiTxaQ9kYGzzhZRbK+xOo="
unfolding digest regs_bytes body length_bytes block encode_base64 encode_base64_internal
accept_of_the_standard = refl
