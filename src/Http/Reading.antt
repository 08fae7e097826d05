-- ===== src/Http/Reading.antt =====
-- demo/src/http/ngx_http_request.c: reading a request line, the loop around its parser.
pub mod Parts
pub mod Pieces
use nginx_comment.Common.{
  ℕ, ◌+◌, ◌-◌, Bool, true, false, List, [], ◌∷◌, ltb, ◌==◌, if◌then◌else◌, length, take, Mem, Ptr,
  Bytes,
}
use nginx_comment.Connection.{Connection}
use nginx_comment.Http.Request.{
  Code, ok, again, header_done, invalid_method, invalid_request, invalid_version, invalid_header,
  Buf, Request, Saved, Reply,
}
use nginx_comment.Http.RequestLine.{parse_request_line}
use nginx_comment.Http.Response.{Rc, status, Server, close_request}

-- What `c->recv` returns: bytes, none of them where the client has closed, NGX_AGAIN or NGX_ERROR.
pub data Recv : Type 0 where
  received : Bytes → Recv
  not_ready broken : Recv

-- The system's part in one round: `rev->ready` as the round finds it, `c->recv`, and whether
-- `ngx_handle_read_event` returns NGX_OK.
pub record Input : Type 0 where
  pub ready : Bool
  pub recv : Recv
  pub rearmed : Bool

-- A connection that reads a request: memory, `r->header_in` with its `end`, the request with what its
-- parser keeps, `rev->timedout`, and the rest of the request and the connection.
pub record Reader : Type 0 where
  pub mem : Mem
  pub header_in : Buf
  pub end : Ptr
  pub r : Request
  pub saved : Saved
  pub rev_timedout : Bool
  pub request_line_len : ℕ
  pub request_length : ℕ
  pub http_protocol_len : ℕ
  pub server : Server

-- The result of `ngx_http_read_request_header`: a number of bytes, NGX_AGAIN or NGX_ERROR.
pub data Read : Type 0 where
  got later failed : Read

abbrev pub write_at : Ptr → Bytes → Mem → Mem
write_at p [] mem = mem
write_at p (b ∷ bs) mem = write_at (p + 1) bs (λ q. if q == p then b else mem q)

-- `ngx_http_close_request` with a status
abbrev pub close_reader : ℕ → Reader → Reader
close_reader n s = record s { server = close_request (status n) (s.server) }

-- The end of `ngx_http_read_request_header` for NGX_AGAIN.
abbrev pub wait_for_read : Bool → Reader → Read × Reader
wait_for_read rearmed s = if rearmed then (later, s) else (failed, close_reader 500 s)

-- Its end where the client has closed or the reading failed.
abbrev pub reading_error : Reader → Read × Reader
reading_error s =
    let v = s.server in
    (failed, close_reader 400 (record s { server = record v { c = record v.c { error = true } } }))

-- `c->recv` is given the room up to `end`.
abbrev pub limited : ℕ → Recv → Recv
limited room (received bytes) = received (take room bytes)
limited room not_ready = not_ready
limited room broken = broken

-- What it does about a result of `c->recv`.
unfoldable pub after_recv : Bool → Recv → Reader → Read × Reader
after_recv rearmed (received []) s = reading_error s
after_recv rearmed (received (b ∷ bytes)) s = (
  got,
  record s {
    mem = write_at (s.header_in.last) (b ∷ bytes) (s.mem);
    header_in = record s.header_in { last = s.header_in.last + length (b ∷ bytes) };
  },
)
after_recv rearmed not_ready s = wait_for_read rearmed s
after_recv rearmed broken s = reading_error s

-- `ngx_http_read_request_header`
unfoldable pub read_request_header : Input → Reader → Read × Reader
unfolding after_recv
read_request_header i s =
    let asked = after_recv (i.rearmed) (limited (s.end - s.header_in.last) (i.recv)) s in
    if ltb (s.header_in.pos) (s.header_in.last)
    then (got, s)
    else if i.ready
    then asked
    else wait_for_read (i.rearmed) s

-- How `ngx_http_process_request_line` returns: it waits for the next event; it goes on with the
-- headers; the connection is closed; or it called `ngx_http_finalize_request` with a status.
pub data Stage : Type 0 where
  waiting headers ended : Reader → Stage
  finalized : ℕ → Reader → Stage
  unfinished : Stage

-- The request line is read: `listed` is whether `ngx_list_init` returns NGX_OK.
unfoldable pub line_read : Bool → Reader → Stage
line_read listed s =
    let q = s.r in
    let s1 = record s {
      request_line_len = q.request_end - q.request_start;
      request_length = s.header_in.pos - q.request_start;
      http_protocol_len =
          if q.http_protocol == 0 then s.http_protocol_len else q.request_end - q.http_protocol;
    } in
    if listed then headers s1 else ended (close_reader 500 s1)

-- A reply of the parser, with the rounds that follow where it asks for more.
unfoldable pub after_parse : (Reader → Stage) → Bool → Code → Reader → Stage
unfolding line_read
after_parse loop listed ok s = line_read listed s
after_parse loop listed again s =
    let rest = loop s in if s.header_in.pos == s.end then ended (close_reader 500 s) else rest
after_parse loop listed invalid_version s = finalized 505 s
after_parse loop listed header_done s = finalized 400 s
after_parse loop listed invalid_method s = finalized 400 s
after_parse loop listed invalid_request s = finalized 400 s
after_parse loop listed invalid_header s = finalized 400 s

-- The parser on what is there.
abbrev pub replied : Reply → Reader → Reader
replied p s = record s { header_in = p.buf; r = p.request; saved = p.saved }

abbrev pub reply : Reader → Reply
reply s = parse_request_line (s.mem) (s.r) (s.saved) (s.header_in)

unfoldable pub after_read : (Reader → Stage) → Bool → Read × Reader → Stage
unfolding after_parse
after_read loop listed (got, s) = after_parse loop listed ((reply s).code) (replied (reply s) s)
after_read loop listed (later, s) = waiting s
after_read loop listed (failed, s) = ended s

-- The loop of `ngx_http_process_request_line`, an input for each round.
unfoldable pub line_loop : Bool → List Input → Reader → Stage
unfolding after_read read_request_header
line_loop listed [] s = unfinished
line_loop listed (i ∷ inputs) s =
    after_read (line_loop listed inputs) listed (read_request_header i s)

-- `ngx_http_process_request_line`
unfoldable pub process_request_line : Bool → List Input → Reader → Stage
unfolding line_loop
process_request_line listed inputs s =
    let v = s.server in
    let late = record s { server = record v { c = record v.c { timedout = true } } } in
    let rest = line_loop listed inputs s in
    if s.rev_timedout then ended (close_reader 408 late) else rest
