-- ===== src/Http/RequestLine/Resume.antt =====
-- A request line that arrives in pieces.
use nginx_comment.Common.{ℕ, ◌-◌, ◌≤◌, ◌≡◌, refl, ◌≢◌, ◌⊎◌, inl, inr, arith, Mem, Ptr}
use nginx_comment.Common.Scan.{Round, next, stop, Keeps, Ends, scan, scan_inv, scan_resume}
use nginx_comment.Http.Request.{ok, again, Buf, Request, Saved, Reply}
use nginx_comment.Http.RequestLine.{
  LineState, start, state_at, index_of, Machine, Exit, fail, done, step_in, step, finish,
  parse_request_line,
}
use nginx_comment.Http.RequestLine.Steps.{state_at-index_of, step_advances}

-- Two replies say the same: the code and the request; and, but where the code is that of an error,
-- the saved state and the position.
pub record Agrees (x y : Reply) : Type 0 where
  pub code : x.code ≡ y.code
  pub request : x.request ≡ y.request
  pub kept : ((x.saved ≡ y.saved) × (x.buf ≡ y.buf)) ⊎ ((x.code ≢ ok) × (x.code ≢ again))

abbrev Failing : Exit → Type 0
Failing (done r p) = Unit
Failing (fail c r) = (c ≢ ok) × (c ≢ again)

step_in-Failing :
    (s : LineState) (mem : Mem) (r : Request) (p : Ptr)
    → Keeps (λ _ _. Unit) Failing (step_in s mem r p)
unfolding step_in
step_in-Failing start mem r p = ground arith
step_in-Failing _ mem r p = ground arith

scan-Failing :
    (mem : Mem) (last : ℕ) (m : Machine) (p : Ptr)
    → Ends last (λ _ _. Unit) Failing (scan (step mem) last m p)
scan-Failing mem last m p =
    scan_inv (step mem) (step_advances mem) (λ _ _. Unit) Failing last
      (λ m p _ _. step_in-Failing m.state mem m.request p) (last - p) m p (omega arith) tt

finish-Agrees :
    (v : Saved) (b : Buf) (s : ℕ) (last q n : ℕ) (x : Round Machine Exit)
    → Ends n (λ _ _. Unit) Failing x
    → Agrees
        (finish v (record b { last = last }) x)
        (finish (record v { state = s }) (record { pos = q; last = last }) x)
unfolding finish
finish-Agrees v b s last q n (next m p) h = record {
  code = refl;
  request = refl;
  kept = inl (refl, refl);
}
finish-Agrees v b s last q n (stop (done r p)) h = record {
  code = refl;
  request = refl;
  kept = inl (refl, refl);
}
finish-Agrees v b s last q n (stop (fail c r)) h = record {
  code = refl;
  request = refl;
  kept = inr h;
}

again_next :
    (v : Saved) (b : Buf) (last : ℕ) (x : Round Machine Exit)
    → Ends last (λ _ _. Unit) Failing x
    → (finish v b x).code ≡ again
    → (m : Machine) × (q : Ptr) × (x ≡ next m q)
unfolding finish
again_next v b last (next m q) h e = (m, q, refl)
again_next v b last (stop (done r p)) h e = absurd (ground arith)
again_next v b last (stop (fail c r)) h e = absurd (h.1 e)

finish_next :
    (v : Saved) (b : Buf) (x : Round Machine Exit) (m : Machine) (q : Ptr)
    → x ≡ next m q
    → finish v b x ≡ record {
      code = again;
      saved = record v { state = index_of m.state };
      request = m.request;
      buf = record b { pos = q };
    }
unfolding finish
finish_next v b x m q e = rw (e, finish) refl

resumed :
    (mem : Mem) (r : Request) (v : Saved) (b : Buf) (last : Ptr) (m : Machine) (q : Ptr)
    → scan (step mem) b.last (record { state = state_at v.state; request = r }) b.pos ≡ next m q
    → scan (step mem) last (record { state = state_at v.state; request = r }) b.pos
      ≡ scan (step mem) last m q
    → Agrees (parse_request_line mem r v (record b { last = last })) (
        parse_request_line mem
          (parse_request_line mem r v b).request
          (parse_request_line mem r v b).saved
          (record (parse_request_line mem r v b).buf { last = last }))
unfolding parse_request_line
resumed mem r v b last m q x y =
    rw (finish_next v b _ m q x, y, state_at-index_of m.state)
      (finish-Agrees v b (index_of m.state) last q last (scan (step mem) last m q)
        (scan-Failing mem last m q))

-- A parse that asked for more input goes on, when more has arrived, as if the whole had been there
-- from the start. Both parses see the same memory.
pub parse_request_line_resumes :
    (mem : Mem) (r : Request) (v : Saved) (b : Buf) (last : Ptr)
    → b.last ≤ last
    → (parse_request_line mem r v b).code ≡ again
    → Agrees (parse_request_line mem r v (record b { last = last })) (
        parse_request_line mem
          (parse_request_line mem r v b).request
          (parse_request_line mem r v b).saved
          (record (parse_request_line mem r v b).buf { last = last }))
parse_request_line_resumes mem r v b last h e =
    let m0 : Machine = record { state = state_at v.state; request = r } in
    let (m, q, x) =
      again_next v b b.last (scan (step mem) b.last m0 b.pos) (scan-Failing mem b.last m0 b.pos)
        (unfold parse_request_line in e) in
    resumed mem r v b last m q x (
      scan_resume (step mem) (step_advances mem) b.last last (b.last - b.pos) m0 m b.pos q
        (omega arith) h x)
