-- ===== src/Http/HeaderLoop.antt =====
-- demo/src/http/ngx_http_request.c: `ngx_http_process_request_headers`, the loop around the parser of
-- header lines.
pub mod Block
pub mod Taken
pub mod Complete
use nginx_comment.Common.{
  ℕ, ◌+◌, ◌-◌, Bool, true, false, Option, none, some, List, [], ◌∷◌, ◌++◌, ◌==◌, if◌then◌else◌, Mem,
  Ptr,
}
use nginx_comment.Http.Request.{
  Code, ok, again, header_done, invalid_method, invalid_request, invalid_version, invalid_header,
  Request, Saved, Reply,
}
use nginx_comment.Http.HeaderLine.{parse_header_line}
use nginx_comment.Http.Reading.{
  Input, Reader, Read, got, later, failed, close_reader, replied, read_request_header,
}
use nginx_comment.Http.Headers.{Wish, take_header}

-- The system's part in one round: what is read, where the loop reads; whether `ngx_list_push` returns
-- an element and what `ngx_pnalloc` returns, where a header is taken.
pub record Turn : Type 0 where
  pub input : Input
  pub pushed : Bool
  pub memory : Option Ptr

-- `ngx_table_elt_t`
pub record Header : Type 0 where
  pub hash : ℕ
  pub key_len : ℕ
  pub key_data : Ptr
  pub value_len : ℕ
  pub value_data : Ptr
  pub lowcase_key : Ptr

-- A connection that reads the headers: the reader, `r->upgrade` and `r->sec_websocket_key`, and the
-- elements of `r->headers_in.headers`.
pub record HeaderReader : Type 0 where
  pub reader : Reader
  pub wish : Wish
  pub headers : List Header

-- How it returns: it waits for the next event; the connection is closed; it called
-- `ngx_http_finalize_request` with a status; or all headers are read, and it calls
-- `ngx_http_process_request`.
pub data Stage : Type 0 where
  waiting ended complete : HeaderReader → Stage
  finalized : ℕ → HeaderReader → Stage
  unfinished : Stage

-- `r->request_length += r->header_in->pos - r->header_name_start`
abbrev pub counted : Reader → Reader
counted s = record s {
  request_length = s.request_length + (s.header_in.pos - s.r.header_name_start);
}

-- The element that is pushed.
abbrev pub element : Request → Saved → Ptr → Header
element r v lowcase_key = record {
  hash = v.header_hash;
  key_len = r.header_name_end - r.header_name_start;
  key_data = r.header_name_start;
  value_len = r.header_end - r.header_start;
  value_data = r.header_start;
  lowcase_key = lowcase_key;
}

-- What follows `ngx_list_push` and `ngx_pnalloc`; none of what they return where one fails.
unfoldable pub after_take :
    (Bool → HeaderReader → Stage) → HeaderReader → Option Ptr → Option (Mem × Wish) → Stage
after_take loop h (some lowcase_key) (some (mem, wish)) = loop false (record h {
  reader = record h.reader { mem = mem };
  wish = wish;
  headers = h.headers ++ element h.reader.r h.reader.saved lowcase_key ∷ [];
})
after_take loop h (some lowcase_key) none = ended (record h { reader = close_reader 500 h.reader })
after_take loop h none taken = ended (record h { reader = close_reader 500 h.reader })

-- The branch for NGX_OK.
unfoldable pub line_taken : (Bool → HeaderReader → Stage) → Turn → HeaderReader → Stage
unfolding after_take
line_taken loop t h =
    let s = counted h.reader in
    let skipped = loop false (record h { reader = s }) in
    let taken = take_header t.pushed t.memory s.r s.saved s.mem h.wish in
    if s.r.invalid_header then skipped else after_take loop (record h { reader = s }) t.memory taken

-- What follows a reply of the parser.
unfoldable pub after_line : (Bool → HeaderReader → Stage) → Turn → Code → HeaderReader → Stage
unfolding line_taken
after_line loop t ok h = line_taken loop t h
after_line loop t header_done h = complete (record h { reader = counted h.reader })
after_line loop t again h = loop true h
after_line loop t invalid_method h = finalized 400 h
after_line loop t invalid_request h = finalized 400 h
after_line loop t invalid_version h = finalized 400 h
after_line loop t invalid_header h = finalized 400 h

-- The parser on what is there, with the code that follows.
abbrev pub parsed : (Bool → HeaderReader → Stage) → Turn → HeaderReader → Stage
parsed loop t h =
    let s = h.reader in
    let x = parse_header_line true s.mem s.r s.saved s.header_in in
    after_line loop t x.code (record h { reader = replied x s })

unfoldable pub after_header_read :
    (Bool → HeaderReader → Stage) → Turn → HeaderReader → Read × Reader → Stage
unfolding after_line
after_header_read loop t h (got, s) = parsed loop t (record h { reader = s })
after_header_read loop t h (later, s) = waiting (record h { reader = s })
after_header_read loop t h (failed, s) = ended (record h { reader = s })

-- The loop; the flag is `rc == NGX_AGAIN`.
unfoldable pub headers_loop : List Turn → Bool → HeaderReader → Stage
unfolding after_header_read after_line read_request_header
headers_loop [] rc_again h = unfinished
headers_loop (t ∷ turns) false h = parsed (headers_loop turns) t h
headers_loop (t ∷ turns) true h =
    let asked = after_header_read (headers_loop turns) t h (read_request_header t.input h.reader) in
    if h.reader.header_in.pos == h.reader.end then finalized 500 h else asked

-- `ngx_http_process_request_headers`
unfoldable pub process_request_headers : List Turn → HeaderReader → Stage
unfolding headers_loop
process_request_headers turns h =
    let s = h.reader in
    let v = s.server in
    let late = record s { server = record v { c = record v.c { timedout = true } } } in
    let rest = headers_loop turns true h in
    if s.rev_timedout then ended (record h { reader = close_reader 408 late }) else rest
