-- ===== src/Http/Waiting/First.antt =====
-- The first read of a connection.
use mathlib.Core.Path.{subst}
use nginx_comment.Common.{
  ℕ, ◌+◌, ◌≤◌, ◌≡◌, refl, sym, ap, Bool, true, false, Option, none, some, List, [], ◌∷◌,
  if◌then◌else◌, Bool-cases, inl, inr, length, length-take, take, arith, Ptr, Bytes,
}
use nginx_comment.Connection.{Connection}
use nginx_comment.Http.Reading.{Recv, received, not_ready, broken, limited, write_at}
use nginx_comment.Http.Headers.Key.{write_at-At}
use nginx_comment.Pool.{Pool, allocate, pfree}
use nginx_comment.Pool.Valid.{Taken}
use nginx_comment.Pool.Grants.{IsFreshSys}
use nginx_comment.Pool.Release.{pfree-IsValid, pfree-Balanced, pfree_declined}
use nginx_comment.Http.Waiting.{
  header_buffer_size, HeadBuf, Waiter, WaitSys, Wait, reading, buffer_at, after_buf,
  create_temp_buf, restarted, buffer_for, close_waiter, give_back, after_first_recv, after_buffer,
  wait_request_handler,
}
use nginx_comment.Http.Waiting.Buffer.{
  StartOf, BufferOf, IsSound, IsWaiting, IsFreshWait, Outcome, Ready, close-Outcome, allocated,
  with_bytes-Ready,
}

limited-length :
    (room : ℕ) (r : Recv) (bytes : Bytes) → limited room r ≡ received bytes → length bytes ≤ room
limited-length room (received xs) bytes e =
    let same : take room xs ≡ bytes = cc in omega (arith, ap length same, length-take room xs)
limited-length room not_ready bytes e = cc
limited-length room broken bytes e = cc

module _ (outside : List Ptr) (buf_size : ℕ) (sys : WaitSys) where
  if_Outcome :
      (t : Bool) (x y : Wait)
      → Outcome outside sys x
      → Outcome outside sys y
      → Outcome outside sys (if t then x else y)
  if_Outcome true x y h k = h
  if_Outcome false x y h k = k

  after_buf-Ready :
      (p : Pool) (r : Option Ptr × Pool)
      → IsSound outside p
      → IsFreshWait buf_size sys p
      → allocate true sys.buf buf_size p ≡ r
      → Ready outside (after_buf sys.bytes header_buffer_size r)
  after_buf-Ready p (none, q) s f e =
      subst (λ (r : Option Ptr × Pool). IsSound outside r.1) e
        (allocated outside sys.buf buf_size p s f.buf)
  after_buf-Ready p (some b, q) s f e =
      with_bytes-Ready outside sys.bytes q (allocate true sys.bytes header_buffer_size q)
        (subst (λ (r : Option Ptr × Pool). IsSound outside r.1) e
          (allocated outside sys.buf buf_size p s f.buf))
        (subst (λ (r : Option Ptr × Pool). IsFreshSys sys.bytes header_buffer_size r.1) e f.bytes)
        refl

  restarted-Ready :
      (p : Pool) (b : HeadBuf) (start : Option Ptr)
      → IsSound outside p
      → IsFreshWait buf_size sys p
      → StartOf p b start
      → Ready outside (restarted sys b start p)
  restarted-Ready p b none s f h =
      with_bytes-Ready outside sys.bytes p (allocate true sys.bytes header_buffer_size p) s
        f.only_bytes refl
  restarted-Ready p b (some a) s f h = (s, (a, h.0, h.1))

  buffer_for-Ready :
      (p : Pool) (b : Option HeadBuf)
      → IsSound outside p
      → IsFreshWait buf_size sys p
      → BufferOf p b
      → Ready outside (buffer_for buf_size sys b p)
  unfolding create_temp_buf
  buffer_for-Ready p none s f h = after_buf-Ready p (allocate true sys.buf buf_size p) s f refl
  buffer_for-Ready p (some b) s f h = restarted-Ready p b b.start s f h

  -- A connection that has its buffer.
  module _ (w : Waiter) (a : Ptr) (s : IsSound outside w.pool)
      (own : Taken w.pool (a, a + header_buffer_size)) where
    abbrev b : HeadBuf
    b = buffer_at a header_buffer_size

    give_back-IsWaiting :
        (c : Connection) → IsWaiting outside (give_back b (some a) (record w { c = c }))
    give_back-IsWaiting c = (
      (pfree-IsValid a w.pool s.0, pfree-Balanced a w.pool outside s.1),
      elim (Bool-cases (pfree a w.pool).0) [
        | inl t ↦ rw t tt
        | inr t ↦ rw (pfree_declined a w.pool t) (refl, own)
      ],
    )

    after_first_recv-Outcome :
        (r : Recv)
        → limited header_buffer_size sys.recv ≡ r
        → Outcome outside sys (after_first_recv sys b r (record w { buffer = some b }))
    unfolding after_first_recv
    after_first_recv-Outcome not_ready e =
        let c = record w.c { reusable = if w.rev_timer_set then w.c.reusable else true } in
        if_Outcome sys.rearmed _ _ (give_back-IsWaiting c)
          (close-Outcome outside sys (record w { buffer = some b; c = c }) s)
    after_first_recv-Outcome broken e = close-Outcome outside sys (record w { buffer = some b }) s
    after_first_recv-Outcome (received []) e =
        close-Outcome outside sys (record w { buffer = some b }) s
    after_first_recv-Outcome (received (x ∷ bytes)) e =
        let w1 = record w {
          buffer = some (record b { last = a + length (x ∷ bytes) });
          mem = write_at a (x ∷ bytes) w.mem;
          c = record w.c { reusable = false };
        } in
        if_Outcome sys.created (reading w1) (close_waiter w1)
          (record {
            bytes = x ∷ bytes;
            start = a;
            some_came = e;
            fits = limited-length header_buffer_size sys.recv (x ∷ bytes) e;
            buffer = refl;
            there = write_at-At w.mem a (x ∷ bytes);
            own = own;
            sound = s;
          })
          (close-Outcome outside sys w1 s)

  after_buffer-Outcome :
      (w : Waiter) (r : Option HeadBuf × Pool)
      → Ready outside r
      → Outcome outside sys (after_buffer sys w r)
  unfolding after_buffer
  after_buffer-Outcome w (none, p) h = close-Outcome outside sys (record w { pool = p }) h
  after_buffer-Outcome w (some b, p) (s, (a, e, own)) =
      subst
        (λ b. Outcome outside sys (
          after_first_recv sys b (limited header_buffer_size sys.recv)
            (record w { buffer = some b; pool = p })))
        (sym e)
        (after_first_recv-Outcome (record w { pool = p }) a s own
          (limited header_buffer_size sys.recv) refl)

  -- A connection whose pool is well formed waits for a request, without a buffer, with one whose bytes
  -- were given back, or with an empty one. Where the C library returns fresh memory or none,
  -- `ngx_http_wait_request_handler` leaves the connection waiting in the same way; or it goes on with
  -- the request line, and the bytes that came lie at the beginning of a buffer of 2048 bytes, within
  -- memory of the pool; or it closes the connection, and the program holds of the C library what it
  -- held without the pool.
  pub wait_request_handler-Outcome :
      (w : Waiter)
      → IsWaiting outside w
      → IsFreshWait buf_size sys w.pool
      → Outcome outside sys (wait_request_handler buf_size sys w)
  unfolding wait_request_handler
  wait_request_handler-Outcome w h f =
      if_Outcome w.rev_timedout _ _ (close-Outcome outside sys w h.0) (
        if_Outcome w.c.close _ _ (close-Outcome outside sys w h.0) (
          after_buffer-Outcome w (buffer_for buf_size sys w.buffer w.pool)
            (buffer_for-Ready w.pool w.buffer h.0 f h.1)))
