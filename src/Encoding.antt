-- ===== src/Encoding.antt =====
-- demo/src/core/ngx_string.c: the encoders of text and numbers.
pub mod Base64
