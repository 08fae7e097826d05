-- ===== src/Sha1.antt =====
-- demo/src/core/ngx_sha1.c: the digest of the websocket handshake. Block is the compression of one
-- block, Context the three entry points over it, Stream and Digest what they come to.
pub mod Block
pub mod Context
pub mod Stream
pub mod Update
pub mod Digest
