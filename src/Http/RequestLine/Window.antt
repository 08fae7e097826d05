-- ===== src/Http/RequestLine/Window.antt =====
-- How far the parser of the request line looks: it may read two bytes behind the input.
use nginx_comment.Common.{
  ℕ, ◌+◌, ◌-◌, ◌<◌, ◌≡◌, ◌&&◌, refl, ap, arith, ◌==◌, if◌then◌else◌, inl, inr, Bool-cases, Mem, Ptr,
}
use nginx_comment.Common.Scan.{Round, next, stop, Keeps, scan_end, scan_next, scan_stop, scan_cong}
use nginx_comment.Http.Request.{again, invalid_method, http_get, Buf, Request, Saved}
use nginx_comment.Http.RequestLine.{
  LineState, start, method, spaces_before_uri, other, state_at, Machine, Exit, fail, step_in, step,
  finish, parse_request_line,
}
use nginx_comment.Http.RequestLine.Fields.{Reading, InOrder, Exits, InProgress, step_in-Reading}
use nginx_comment.Http.RequestLine.Steps.{step_advances}

pub Keeps-weaken :
    (P : Machine → ℕ → Type 0) (Q : Exit → Type 0) (x : Round Machine Exit)
    → Keeps P Q x
    → Keeps P (λ _. Unit {0}) x
Keeps-weaken P Q (next m q) h = h
Keeps-weaken P Q (stop e) h = tt

step_in_window :
    (s : LineState) (mem mem' : Mem) (r : Request) (p last : ℕ)
    → ((q : Ptr) → q < last + 2 → mem q ≡ mem' q)
    → p < last
    → Reading s r p
    → step_in s mem r p ≡ step_in s mem' r p
unfolding step_in
step_in_window method mem mem' r p last same lt h = ground (
  arith,
  same r.request_start,
  same (r.request_start + 1),
  same (r.request_start + 2),
  same (r.request_start + 3),
)
step_in_window (other k) mem mem' r p last same lt h = refl
step_in_window start mem mem' r p last same lt h = rw (same p (omega arith)) refl
step_in_window _ mem mem' r p last same lt h = rw (same p (omega arith)) refl

-- Where the fields are in order, a parse reads no byte from the second behind `last` on: two
-- memories that agree on what comes before have the same reply.
parse_request_line_window :
    (mem mem' : Mem) (r : Request) (v : Saved) (b : Buf)
    → ((q : Ptr) → q < b.last + 2 → mem q ≡ mem' q)
    → InProgress r v b
    → parse_request_line mem r v b ≡ parse_request_line mem' r v b
unfolding parse_request_line
parse_request_line_window mem mem' r v b same h = ap (finish v b) (
    scan_cong (step mem) (step mem') (InOrder b.last) b.last (step_advances mem)
      (step_advances mem')
      (λ m p k lt. (
        step_in_window m.state mem mem' m.request p b.last same lt k.0,
        Keeps-weaken (InOrder b.last) (Exits b.last) (step mem m p)
            (step_in-Reading m.state mem m.request p b.last k.0 k.1 lt),
      ))
      (b.last - b.pos) (record { state = state_at v.state; request = r }) b.pos (omega arith)
      (h.reading, h.not_null, h.not_past))

-- When the first piece of a request is "GE", the reply is decided by the two bytes behind it that
-- have not arrived: unless they happen to be "T ", the request is refused.
pub parse_request_line_over_reads :
    (mem : Mem) (r : Request) (v : Saved) (b : Buf)
    → v.state ≡ 0
    → mem b.pos ≡ b'G'
    → mem (b.pos + 1) ≡ b'E'
    → b.last ≡ b.pos + 2
    → (parse_request_line mem r v b).code
      ≡ (if mem (b.pos + 2) == b'T' && mem (b.pos + 3) == b' ' then again else invalid_method)
unfolding parse_request_line state_at finish
parse_request_line_over_reads mem r v b s g e l =
    let r1 = record r { request_start = b.pos } in
    let first =
      scan_next (step mem) (step_advances mem) b.last (record { state = start; request = r })
        (record { state = method; request = r1 }) b.pos b.pos (omega arith)
        (unfold step_in in ground arith) in
    rw (s, first)
      (elim (Bool-cases (mem (b.pos + 2) == b'T' && mem (b.pos + 3) == b' ')) [
        | inl t ↦
            let r2 = record r1 { method_end = b.pos + 1 + 2; method = http_get } in
            rw
              (
                t,
                scan_next (step mem) (step_advances mem) b.last
                    (record { state = method; request = r1 })
                    (record { state = spaces_before_uri; request = r2 }) (b.pos + 1) (b.pos + 1 + 1)
                    (omega arith) (unfold step_in in ground arith),
                scan_end (step mem) (step_advances mem) b.last
                    (record { state = spaces_before_uri; request = r2 }) (b.pos + 1 + 1 + 1)
                    (omega arith),
              )
              refl
        | inr t ↦
            rw
              (
                t,
                scan_stop (step mem) (step_advances mem) b.last
                    (record { state = method; request = r1 }) (b.pos + 1) (fail invalid_method r1)
                    (omega arith) (unfold step_in in ground arith),
              )
              refl
      ])
