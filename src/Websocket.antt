-- ===== src/Websocket.antt =====
-- The websocket protocol: the frames of demo/src/http/ngx_websocket.c and the handshake of
-- demo/src/http/ngx_http_request.c.
pub mod Frame
pub mod Accept
pub mod Channels
