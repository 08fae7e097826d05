-- ===== src/Http.antt =====
-- The HTTP front end of the server: demo/src/http. Request holds the part of
-- `ngx_http_request_t` that the parsers read and write, and `ngx_buf_t`; RequestLine and
-- HeaderLine are the two state machines of ngx_http_parse.c; Waiting, Reading and HeaderLoop are the
-- handlers around them, Headers what is done with a header, and Response the answer to a request.
pub mod Request
pub mod RequestLine
pub mod HeaderLine
pub mod Response
pub mod Reading
pub mod Headers
pub mod HeaderLoop
pub mod Waiting
