-- ===== src/Http/Waiting/Buffer.antt =====
-- The buffer of a connection that waits for a request, and the memory behind it.
use mathlib.Core.Path.{subst}
use nginx_comment.Common.{
  ℕ, ◌+◌, ◌≤◌, ◌≡◌, refl, sym, ap, true, false, Option, none, some, List, Option-cases, inl, inr,
  length, Ptr, Bytes, At,
}
use nginx_comment.Connection.{close_connection}
use nginx_comment.Http.Reading.{received, limited}
use nginx_comment.Pool.{Pool, Sys, allocate}
use nginx_comment.Pool.Valid.{IsValid, Taken}
use nginx_comment.Pool.Grants.{IsFreshSys, allocate-Granted, allocate_refused}
use nginx_comment.Pool.Balance.{count, Balanced, allocate-Balanced, destroy_pool_lem}
use nginx_comment.Http.Waiting.{
  header_buffer_size, HeadBuf, Waiter, WaitSys, Wait, closed, waiting, reading, buffer_at,
  with_bytes, close_waiter,
}

-- The bytes of a buffer that has been given back are none of the pool's; else the buffer is empty, and
-- its bytes are the pool's.
abbrev pub StartOf : Pool → HeadBuf → Option Ptr → Type 0
StartOf p b none = Unit
StartOf p b (some a) = (b ≡ buffer_at a header_buffer_size) × Taken p (a, a + header_buffer_size)

abbrev pub BufferOf : Pool → Option HeadBuf → Type 0
BufferOf p none = Unit
BufferOf p (some b) = StartOf p b b.start

-- A pool that is well formed, where the program holds what it held without the pool and what the pool
-- owns.
abbrev pub IsSound : List Ptr → Pool → Type 0
IsSound outside p = IsValid p × Balanced outside p

-- A connection that waits.
abbrev pub IsWaiting : List Ptr → Waiter → Type 0
IsWaiting outside w = IsSound outside w.pool × BufferOf w.pool w.buffer

-- The C library's promises for the allocations of one call.
pub record IsFreshWait (buf_size : ℕ) (sys : WaitSys) (p : Pool) : Type 0 where
  pub buf : IsFreshSys sys.buf buf_size p
  pub only_bytes : IsFreshSys sys.bytes header_buffer_size p
  pub bytes : IsFreshSys sys.bytes header_buffer_size (allocate true sys.buf buf_size p).1

-- The bytes that were received lie at the beginning of the buffer, and within it.
pub record HasRead (outside : List Ptr) (sys : WaitSys) (w : Waiter) : Type 0 where
  pub bytes : Bytes
  pub start : Ptr
  pub some_came : limited header_buffer_size sys.recv ≡ received bytes
  pub fits : length bytes ≤ header_buffer_size
  pub buffer :
      w.buffer ≡ some (record (buffer_at start header_buffer_size) { last = start + length bytes })
  pub there : At w.mem start bytes
  pub own : Taken w.pool (start, start + header_buffer_size)
  pub sound : IsSound outside w.pool

abbrev pub Outcome : List Ptr → WaitSys → Wait → Type 0
Outcome outside sys (closed c live) =
    (c.is_open ≡ false) × ((x : Ptr) → count x live ≡ count x outside)
Outcome outside sys (waiting w) = IsWaiting outside w
Outcome outside sys (reading w) = HasRead outside sys w

module _ (outside : List Ptr) where
  abbrev pub Ready : Option HeadBuf × Pool → Type 0
  Ready (none, p) = IsSound outside p
  Ready (some b, p) =
      IsSound outside p
      × ((a : Ptr) × (b ≡ buffer_at a header_buffer_size) × Taken p (a, a + header_buffer_size))

  pub close-Outcome :
      (sys : WaitSys) (w : Waiter) → IsSound outside w.pool → Outcome outside sys (close_waiter w)
  unfolding close_connection
  close-Outcome sys w s = (refl, destroy_pool_lem outside w.pool s.1)

  module _ (sys : Sys) (size : ℕ) (p : Pool) (s : IsSound outside p)
      (fresh : IsFreshSys sys size p) where
    pub allocated : IsSound outside (allocate true sys size p).1
    allocated = elim (Option-cases (allocate true sys size p).0) [
      | inl n ↦
          subst (IsSound outside)
            (ap (λ (r : Option Ptr × Pool). r.1) (sym (allocate_refused true sys size p n).0)) s
      | inr (m, e) ↦
          let g = allocate-Granted true sys size p s.0 fresh e in
          (g.valid, allocate-Balanced outside true sys size p s.0 s.1 (λ a k. (fresh.large a k).0))
    ]

  pub with_bytes-Ready :
      (sys : Sys) (p : Pool) (r : Option Ptr × Pool)
      → IsSound outside p
      → IsFreshSys sys header_buffer_size p
      → allocate true sys header_buffer_size p ≡ r
      → Ready (with_bytes header_buffer_size r)
  with_bytes-Ready sys p (none, q) s f e =
      subst (λ (r : Option Ptr × Pool). IsSound outside r.1) e
        (allocated sys header_buffer_size p s f)
  with_bytes-Ready sys p (some a, q) s f e =
      let g =
        allocate-Granted true sys header_buffer_size p s.0 f
          (ap (λ (r : Option Ptr × Pool). r.0) e) in
      (
        subst (λ (r : Option Ptr × Pool). IsSound outside r.1) e
            (allocated sys header_buffer_size p s f),
        (
          a,
          refl,
          subst (λ (r : Option Ptr × Pool). Taken r.1 (a, a + header_buffer_size)) e g.taken,
        ),
      )
