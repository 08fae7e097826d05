-- ===== src/Http/Waiting.antt =====
-- demo/src/http/ngx_http_request.c: `ngx_http_wait_request_handler`, the first read of a connection,
-- with `ngx_create_temp_buf` of demo/src/core/ngx_buf.c.
pub mod Buffer
pub mod First
use nginx_comment.Common.{
  ℕ, ◌+◌, Bool, true, false, Option, none, some, List, [], ◌∷◌, if◌then◌else◌, length, Mem, Ptr,
  Bytes,
}
use nginx_comment.Connection.{Connection, close_connection}
use nginx_comment.Http.Reading.{Recv, received, not_ready, broken, limited, write_at}
use nginx_comment.Pool.{Pool, Sys, allocate, pfree, destroy_pool}

-- `NGX_CLIENT_HEADER_BUFFER_SIZE`
abbrev pub header_buffer_size : ℕ
header_buffer_size = 2048

-- The pointers of `ngx_buf_t`; `start` is none for NULL, and the flag `temporary` is left out.
pub record HeadBuf : Type 0 where
  pub start : Option Ptr
  pub pos : Ptr
  pub last : Ptr
  pub end : Ptr

-- A connection that waits for a request: `rev->timedout`, `rev->timer_set`,
-- `c->buffer`, which is none for NULL, `c->pool`
-- and memory.
pub record Waiter : Type 0 where
  pub rev_timedout : Bool
  pub rev_timer_set : Bool
  pub buffer : Option HeadBuf
  pub pool : Pool
  pub mem : Mem
  pub c : Connection

-- The system's part: memory for the `ngx_buf_t` and for its bytes, `c->recv`, whether
-- `ngx_handle_read_event` returns NGX_OK, and whether `ngx_http_create_request` returns a request.
pub record WaitSys : Type 0 where
  pub buf : Sys
  pub bytes : Sys
  pub recv : Recv
  pub rearmed : Bool
  pub created : Bool

-- How the handler ends: the connection is closed, with what the program holds then; it waits on; or it
-- goes on with the request line.
pub data Wait : Type 0 where
  closed : Connection → List Ptr → Wait
  waiting reading : Waiter → Wait

-- A buffer of `size` bytes at `a`.
abbrev pub buffer_at : Ptr → ℕ → HeadBuf
buffer_at a size = record { start = some a; pos = a; last = a; end = a + size }

abbrev pub with_bytes : ℕ → Option Ptr × Pool → Option HeadBuf × Pool
with_bytes size (none, p) = (none, p)
with_bytes size (some a, p) = (some (buffer_at a size), p)

abbrev pub after_buf : Sys → ℕ → Option Ptr × Pool → Option HeadBuf × Pool
after_buf sys size (none, p) = (none, p)
after_buf sys size (some b, p) = with_bytes size (allocate true sys size p)

-- `ngx_create_temp_buf`, by the size of an `ngx_buf_t`
unfoldable pub create_temp_buf : ℕ → Sys → Sys → ℕ → Pool → Option HeadBuf × Pool
create_temp_buf buf_size buf bytes size p = after_buf bytes size (allocate true buf buf_size p)

-- The buffer into which the handler reads.
abbrev pub restarted : WaitSys → HeadBuf → Option Ptr → Pool → Option HeadBuf × Pool
restarted sys b none p =
    with_bytes header_buffer_size (allocate true sys.bytes header_buffer_size p)
restarted sys b (some a) p = (some b, p)

abbrev pub buffer_for : ℕ → WaitSys → Option HeadBuf → Pool → Option HeadBuf × Pool
buffer_for buf_size sys none p = create_temp_buf buf_size sys.buf sys.bytes header_buffer_size p
buffer_for buf_size sys (some b) p = restarted sys b b.start p

-- `ngx_http_close_connection`
abbrev pub close_waiter : Waiter → Wait
close_waiter w = closed (close_connection w.c) (destroy_pool w.pool)

-- `if (ngx_pfree(c->pool, b->start) == NGX_OK) { b->start = NULL; }`
abbrev pub give_back : HeadBuf → Option Ptr → Waiter → Waiter
give_back b none w = w
give_back b (some a) w =
    let (freed, p) = pfree a w.pool in
    record w { buffer = some (record b { start = if freed then none else some a }); pool = p }

-- What the handler does about a result of `c->recv`; `c->buffer` is `b` by then.
unfoldable pub after_first_recv : WaitSys → HeadBuf → Recv → Waiter → Wait
after_first_recv sys b not_ready w =
    let asking = record w {
      c = record w.c { reusable = if w.rev_timer_set then w.c.reusable else true };
    } in
    if sys.rearmed then waiting (give_back b b.start asking) else close_waiter asking
after_first_recv sys b broken w = close_waiter w
after_first_recv sys b (received []) w = close_waiter w
after_first_recv sys b (received (x ∷ bytes)) w =
    let w1 = record w {
      buffer = some (record b { last = b.last + length (x ∷ bytes) });
      mem = write_at b.last (x ∷ bytes) w.mem;
      c = record w.c { reusable = false };
    } in
    if sys.created then reading w1 else close_waiter w1

-- What the handler does with its buffer, where there is one.
unfoldable pub after_buffer : WaitSys → Waiter → Option HeadBuf × Pool → Wait
unfolding after_first_recv
after_buffer sys w (none, p) = close_waiter (record w { pool = p })
after_buffer sys w (some b, p) =
    after_first_recv sys b (limited header_buffer_size sys.recv)
      (record w { buffer = some b; pool = p })

-- `ngx_http_wait_request_handler`, by the size of an `ngx_buf_t`
unfoldable pub wait_request_handler : ℕ → WaitSys → Waiter → Wait
unfolding after_buffer create_temp_buf
wait_request_handler buf_size sys w =
    if w.rev_timedout
    then close_waiter w
    else if w.c.close
    then close_waiter w
    else after_buffer sys w (buffer_for buf_size sys w.buffer w.pool)
