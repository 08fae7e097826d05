-- ===== src/Http/Request.antt =====
-- demo/src/http/ngx_http_request.h: the fields of `ngx_http_request_t` that the parsers use, the
-- codes that they return, and the window of an `ngx_buf_t` (demo/src/core/ngx_buf.h).
use nginx_comment.Common.{ℕ, Bool, false, Bytes, Ptr, replicate}

-- The return codes: `NGX_OK`, `NGX_AGAIN`, `NGX_HTTP_PARSE_HEADER_DONE` and the
-- `NGX_HTTP_PARSE_INVALID_*` ones.
pub data Code : Type 0 where
  ok again header_done invalid_method invalid_request invalid_version invalid_header : Code

-- `pos` and `last`: the bytes from `pos` up to `last` are there to be parsed.
pub record Buf : Type 0 where
  pub pos : Ptr
  pub last : Ptr

abbrev pub cr : ℕ
cr = 13

abbrev pub lf : ℕ
lf = 10

abbrev pub http_unknown : ℕ
http_unknown = 1

abbrev pub http_get : ℕ
http_get = 2

abbrev pub http_version_10 : ℕ
http_version_10 = 1000

abbrev pub http_version_11 : ℕ
http_version_11 = 1001

-- `NGX_HTTP_LC_HEADER_LEN`
abbrev pub lc_header_len : ℕ
lc_header_len = 32

pub record Request : Type 0 where
  pub method : ℕ
  pub http_version : ℕ
  pub invalid_header : Bool
  pub lowcase_header : Bytes
  pub http_protocol : Ptr
  pub header_name_start : Ptr
  pub header_name_end : Ptr
  pub header_start : Ptr
  pub header_end : Ptr
  pub request_start : Ptr
  pub request_end : Ptr
  pub method_end : Ptr
  pub uri_start : Ptr
  pub uri_end : Ptr
  pub http_minor : ℕ
  pub http_major : ℕ

-- `ngx_http_create_request`: zeroed memory (with `cleared` for the saved part), and the method and
-- the version set.
abbrev pub created : Request
created = record {
  method = http_unknown;
  http_version = http_version_10;
  invalid_header = false;
  lowcase_header = replicate lc_header_len 0;
  http_protocol = 0;
  header_name_start = 0;
  header_name_end = 0;
  header_start = 0;
  header_end = 0;
  request_start = 0;
  request_end = 0;
  method_end = 0;
  uri_start = 0;
  uri_end = 0;
  http_minor = 0;
  http_major = 0;
}

-- The fields of `ngx_http_request_t` in which a parser keeps its variables from one call to the
-- next: `state`, `header_hash` and `lowcase_index`.
pub record Saved : Type 0 where
  pub state : ℕ
  pub header_hash : ℕ
  pub lowcase_index : ℕ

abbrev pub cleared : Saved
cleared = record { state = 0; header_hash = 0; lowcase_index = 0 }

-- What a parser leaves: the code that it returns, the request, its saved part and the buffer.
pub record Reply : Type 0 where
  pub code : Code
  pub saved : Saved
  pub request : Request
  pub buf : Buf
