-- ===== src/Http/RequestLine/Arrived.antt =====
-- When the parser of the request line reads no byte that has not arrived.
use mathlib.Core.Path.{subst}
use nginx_comment.Common.{ℕ, ◌+◌, ◌-◌, ◌<◌, ◌≤◌, ◌≡◌, ◌≢◌, refl, sym, ap, arith, Mem, Ptr}
use nginx_comment.Common.Scan.{Round, next, stop, Keeps, Ends, scan, scan_inv, scan_cong}
use nginx_comment.Http.Request.{again, Buf, Request, Saved}
use nginx_comment.Http.RequestLine.{
  LineState, start, method, other, state_at, Machine, Exit, fail, done, step_in, step, finish,
  parse_request_line,
}
use nginx_comment.Http.RequestLine.Steps.{state_at-index_of, step_advances}
use nginx_comment.Http.RequestLine.Window.{Keeps-weaken}

-- The method was read, or its four bytes have arrived.
abbrev pub Arrived : Mem → Ptr → LineState → Request → Ptr → Type 0
Arrived mem last start r p = (mem p ≡ b'G') × (p + 3 < last)
Arrived mem last method r p = (p ≡ r.request_start + 1) × (p + 2 < last)
Arrived mem last _ r p = Unit

-- The method was read.
abbrev pub Past : LineState → Type 0
Past start = ⊥
Past method = ⊥
Past _ = Unit

abbrev ExitsPast : Exit → Type 0
ExitsPast (done r p) = Unit
ExitsPast (fail c r) = c ≢ again

step_in-Arrived :
    (s : LineState) (mem : Mem) (r : Request) (p last : ℕ)
    → Arrived mem last s r p
    → Keeps (λ m q. Arrived mem last m.state m.request q) ExitsPast (step_in s mem r p)
unfolding step_in
step_in-Arrived start mem r p last h = ground arith
step_in-Arrived _ mem r p last h = ground arith

step_in_same :
    (s : LineState) (mem mem' : Mem) (r : Request) (p last : ℕ)
    → ((q : Ptr) → q < last → mem q ≡ mem' q)
    → p < last
    → Arrived mem last s r p
    → step_in s mem r p ≡ step_in s mem' r p
unfolding step_in
step_in_same method mem mem' r p last same lt h = ground (
  arith,
  same r.request_start,
  same (r.request_start + 1),
  same (r.request_start + 2),
  same (r.request_start + 3),
)
step_in_same (other k) mem mem' r p last same lt h = refl
step_in_same start mem mem' r p last same lt h = rw (same p (omega arith)) refl
step_in_same _ mem mem' r p last same lt h = rw (same p (omega arith)) refl

-- Memories that agree on what has arrived have the same reply.
pub parse_request_line_same :
    (mem mem' : Mem) (r : Request) (v : Saved) (b : Buf)
    → ((q : Ptr) → q < b.last → mem q ≡ mem' q)
    → Arrived mem b.last (state_at v.state) r b.pos
    → parse_request_line mem r v b ≡ parse_request_line mem' r v b
unfolding parse_request_line
parse_request_line_same mem mem' r v b same h = ap (finish v b) (
    scan_cong (step mem) (step mem') (λ m q. Arrived mem b.last m.state m.request q) b.last
      (step_advances mem) (step_advances mem')
      (λ m p k lt. (
        step_in_same m.state mem mem' m.request p b.last same lt k,
        Keeps-weaken (λ m q. Arrived mem b.last m.state m.request q) ExitsPast (step mem m p)
            (step_in-Arrived m.state mem m.request p b.last k),
      ))
      (b.last - b.pos) (record { state = state_at v.state; request = r }) b.pos (omega arith) h)

Arrived-Past :
    (mem : Mem) (last : Ptr) (s : LineState) (r : Request) (p : Ptr)
    → Arrived mem last s r p
    → last ≤ p
    → Past s
Arrived-Past mem last start r p h le = absurd (omega arith)
Arrived-Past mem last method r p h le = absurd (omega arith)
Arrived-Past mem last _ r p h le = tt

finish-Past :
    (mem : Mem) (v : Saved) (b : Buf) (x : Round Machine Exit)
    → Ends b.last (λ m q. Arrived mem b.last m.state m.request q) ExitsPast x
    → (finish v b x).code ≡ again
    → Past (state_at (finish v b x).saved.state)
unfolding finish
finish-Past mem v b (next m q) h e =
    subst Past (sym (state_at-index_of m.state))
      (Arrived-Past mem b.last m.state m.request q h.0 h.1)
finish-Past mem v b (stop (done r p)) h e = absurd (ground arith)
finish-Past mem v b (stop (fail c r)) h e = absurd (h e)

-- A parse that asks for more has read the method.
pub parse_request_line-Past :
    (mem : Mem) (r : Request) (v : Saved) (b : Buf)
    → Arrived mem b.last (state_at v.state) r b.pos
    → (parse_request_line mem r v b).code ≡ again
    → Past (state_at (parse_request_line mem r v b).saved.state)
unfolding parse_request_line
parse_request_line-Past mem r v b h =
    let m0 : Machine = record { state = state_at v.state; request = r } in
    finish-Past mem v b (scan (step mem) b.last m0 b.pos) (
      scan_inv (step mem) (step_advances mem) (λ m q. Arrived mem b.last m.state m.request q)
        ExitsPast b.last (λ m p k _. step_in-Arrived m.state mem m.request p b.last k)
        (b.last - b.pos) m0 b.pos (omega arith) h)

-- Where the method was read, all that the parser asks for has arrived.
pub Past-Arrived :
    (mem : Mem) (last : Ptr) (s : LineState) (r : Request) (p : Ptr)
    → Past s
    → Arrived mem last s r p
Past-Arrived mem last start r p h = absurd h
Past-Arrived mem last method r p h = absurd h
Past-Arrived mem last _ r p h = tt
