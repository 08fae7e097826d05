-- ===== src/Http/Response.antt =====
-- demo/src/http/ngx_http_request.c: the answer to a request and the end of it, with
-- `ngx_unix_send` of demo/src/os/unix/ngx_send.c under it.
pub mod Outcome
pub mod Serving
pub mod Handshake
use nginx_comment.Common.{
  ℕ, zero, suc, ◌+◌, Bool, true, false, not, ◌||◌, Option, none, some, List, [], ◌∷◌, ◌++◌, ◌==◌,
  ltb, leb, if◌then◌else◌, length, take, drop, Bytes, codes,
}
use nginx_comment.Connection.{
  Sys, taken, unavailable, broken, Answer, SendResult, again, failed, sent, Connection, unix_send,
  wanting, close_connection,
}
use nginx_comment.Websocket.Accept.{build_accept_key}

-- The result codes: NGX_OK, NGX_ERROR, NGX_DONE and the statuses of HTTP.
pub data Rc : Type 0 where
  ok error done : Rc
  status : ℕ → Rc

-- One connection with its request. `pending` are the bytes from `r->buffer->pos` to
-- `r->buffer->last`, `alive` is whether `r->pool` is not NULL, and `upgraded` whether the connection was
-- passed on to `ngx_websocket_init_connection`.
pub record Server : Type 0 where
  pub c : Connection
  pub r_error : Bool
  pub alive : Bool
  pub upgrade : Bool
  pub sec_websocket_key : Option Bytes
  pub pending : Bytes
  pub upgraded : Bool

-- `ngx_http_free_request`
unfoldable pub free_request : Server → Server
free_request s =
    if s.alive then record s { c = record s.c { destroyed = true }; alive = false } else s

-- `ngx_http_close_connection` of the request's connection
abbrev pub close_own_connection : Server → Server
close_own_connection s = record s { c = close_connection (s.c) }

-- `ngx_http_close_request`: both of its ends but that for NGX_OK are the same.
unfoldable pub close_request : Rc → Server → Server
close_request ok s = free_request s
close_request error s = close_own_connection (free_request s)
close_request done s = close_own_connection (free_request s)
close_request (status n) s = close_own_connection (free_request s)

abbrev pub crlf : Bytes
crlf = 13 ∷ 10 ∷ []

abbrev pub forbidden : Bytes
forbidden = codes "HTTP/1.1 403 Forbidden" ++ crlf ++ crlf

-- `ngx_http_finalize_request`, with the writer that it calls.
unfoldable pub finalize_request : (Server → Option Server) → Rc → Server → Option Server
finalize_request writer ok s = some (close_request ok s)
finalize_request writer error s = some (close_request error s)
finalize_request writer done s = some (close_request (if s.c.error then error else done) s)
finalize_request writer (status n) s =
    let refused = writer (record s { r_error = true; pending = forbidden }) in
    if (n == 408) || (n == 499) || s.c.error
    then some (close_request error s)
    else if leb 300 n
    then refused
    else some (close_request done s)

-- The end of a round that left bytes: `ngx_reusable_connection(c, 1)` where no timer is set, and
-- `ngx_handle_write_event`.
unfoldable pub wait_for_write : (Server → Option Server) → Bool → Server → Option Server
unfolding finalize_request
wait_for_write writer rearmed s =
    let s1 = record s { c = wanting (s.c) } in
    let ended = finalize_request writer (status 500) s1 in if rearmed then some s1 else ended

-- What `ngx_websocket_writer` does about a result of `c->send`.
unfoldable pub after_send : (Server → Option Server) → Bool → SendResult → Server → Option Server
unfolding wait_for_write
after_send writer rearmed again s = wait_for_write writer rearmed s
after_send writer rearmed failed s = finalize_request writer (status 500) s
after_send writer rearmed (sent zero) s = finalize_request writer (status 499) s
after_send writer rearmed (sent (suc n)) s =
    let s1 = record s { pending = drop (suc n) (s.pending) } in
    let rest = wait_for_write writer rearmed s1 in
    if leb (length (s.pending)) (suc n)
    then some (
        if s.r_error
        then close_request done s1
        else record (close_request ok s1) { upgraded = true })
    else rest

-- `ngx_websocket_writer`: none where it still runs when the answers end.
unfoldable pub websocket_writer : List Answer → Server → Option Server
unfolding after_send
websocket_writer [] s = none
websocket_writer (a ∷ later) s =
    let (result, c1) = unix_send (a.interruptions) (a.last) (s.pending) (s.c) in
    let rest = after_send (websocket_writer later) (a.rearmed) result (record s { c = c1 }) in
    if s.c.wev_timedout
    then finalize_request (websocket_writer later) (status 408)
        (record s { c = record s.c { timedout = true } })
    else if length (s.pending) == 0
    then finalize_request (websocket_writer later) (if s.r_error then done else ok) s
    else rest

-- `ngx_websocket_request_handler`, for a write event.
unfoldable pub websocket_request_handler : List Answer → Server → Option Server
unfolding websocket_writer
websocket_request_handler later s =
    let rest = websocket_writer later s in
    if s.c.close then finalize_request (websocket_writer later) ok s else rest

-- A text up to its zero, as `%s` prints it.
abbrev pub c_text : Bytes → Bytes
c_text [] = []
c_text (zero ∷ bs) = []
c_text (suc b ∷ bs) = suc b ∷ c_text bs

-- `ws_accept`, before and behind `%s`
abbrev pub switching_head : Bytes
switching_head =
    codes "HTTP/1.1 101 Switching Protocols"
    ++ crlf
    ++ codes "Upgrade: websocket"
    ++ crlf
    ++ codes "Connection: Upgrade"
    ++ crlf
    ++ codes "Sec-WebSocket-Accept: "

abbrev pub switching_tail : Bytes
switching_tail = crlf ++ codes "Sec-WebSocket-Version: 13" ++ crlf ++ crlf

abbrev pub switching : Bytes → Bytes
switching accept = switching_head ++ (accept ++ switching_tail)

-- The end of `ngx_websocket_handler`, with the answer to the key or NULL.
unfoldable pub send_accept : (Server → Option Server) → Option Bytes → Server → Option Server
unfolding finalize_request
send_accept writer none s = finalize_request writer (status 500) s
send_accept writer (some accept) s = writer (record s { pending = switching (c_text accept) })

-- `ngx_websocket_handler` on the value of `r->sec_websocket_key`: `allocated` and `buffer` are for
-- `ngx_websocket_build_accept_key`.
unfoldable pub handle_key :
    (Server → Option Server) → Bool → Bytes → Option Bytes → Server → Option Server
unfolding send_accept
handle_key writer allocated buffer none s = finalize_request writer (status 400) s
handle_key writer allocated buffer (some key) s =
    if not (s.upgrade)
    then finalize_request writer (status 400) s
    else send_accept writer (build_accept_key allocated buffer key) s

-- `ngx_websocket_handler`
unfoldable pub websocket_handler : Bool → Bytes → List Answer → Server → Option Server
unfolding handle_key websocket_writer
websocket_handler allocated buffer later s =
    handle_key (websocket_writer later) allocated buffer (s.sec_websocket_key) s
