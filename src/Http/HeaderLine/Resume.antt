-- ===== src/Http/HeaderLine/Resume.antt =====
-- A header line that arrives in pieces.
use nginx_comment.Common.{ℕ, ◌-◌, ◌≤◌, ◌≡◌, ◌⊎◌, inl, inr, refl, arith, Bool, Mem, Ptr}
use nginx_comment.Common.Scan.{Round, next, stop, scan, scan_resume}
use nginx_comment.Http.Request.{again, header_done, invalid_header, Buf, Request, Saved, Reply}
use nginx_comment.Http.HeaderLine.{
  index_of, Machine, Exit, done, done_all, fail, step, restored, finish, parse_header_line,
}
use nginx_comment.Http.HeaderLine.Steps.{state_at-index_of, step_advances}

-- Two replies say the same: the code and the request; with a line or the need for more, all that is
-- saved and the position; at the end of the header, all but the hash and index, which are not
-- written then; and nothing more where the code is that of an error.
pub record Agrees (x y : Reply) : Type 0 where
  pub code : x.code ≡ y.code
  pub request : x.request ≡ y.request
  pub kept :
      ((x.saved ≡ y.saved) × (x.buf ≡ y.buf))
      ⊎ ((x.code ≡ header_done) × (x.saved.state ≡ y.saved.state) × (x.buf ≡ y.buf))
      ⊎ (x.code ≡ invalid_header)

finish-Agrees :
    (v w : Saved) (b : Buf) (last q : ℕ) (x : Round Machine Exit)
    → Agrees (finish v (record b { last = last }) x) (finish w (record { pos = q; last = last }) x)
unfolding finish
finish-Agrees v w b last q (next m p) = record {
  code = refl;
  request = refl;
  kept = inl (refl, refl);
}
finish-Agrees v w b last q (stop (done m p)) = record {
  code = refl;
  request = refl;
  kept = inl (refl, refl);
}
finish-Agrees v w b last q (stop (done_all m p)) = record {
  code = refl;
  request = refl;
  kept = inr (inl (refl, refl, refl));
}
finish-Agrees v w b last q (stop (fail m)) = record {
  code = refl;
  request = refl;
  kept = inr (inr refl);
}

again_next :
    (v : Saved) (b : Buf) (x : Round Machine Exit)
    → (finish v b x).code ≡ again
    → (m : Machine) × (q : Ptr) × (x ≡ next m q)
unfolding finish
again_next v b (next m q) e = (m, q, refl)
again_next v b (stop (done m p)) e = absurd (ground arith)
again_next v b (stop (done_all m p)) e = absurd (ground arith)
again_next v b (stop (fail m)) e = absurd (ground arith)

finish_next :
    (v : Saved) (b : Buf) (x : Round Machine Exit) (m : Machine) (q : Ptr)
    → x ≡ next m q
    → finish v b x ≡ record {
      code = again;
      saved = record { state = index_of m.state; header_hash = m.hash; lowcase_index = m.i };
      request = m.request;
      buf = record b { pos = q };
    }
unfolding finish
finish_next v b x m q e = rw (e, finish) refl

resumed :
    (u : Bool) (mem : Mem) (r : Request) (v : Saved) (b : Buf) (last : Ptr) (m : Machine) (q : Ptr)
    → scan (step u mem) b.last (restored r v) b.pos ≡ next m q
    → scan (step u mem) last (restored r v) b.pos ≡ scan (step u mem) last m q
    → Agrees (parse_header_line u mem r v (record b { last = last })) (
        parse_header_line u mem
          (parse_header_line u mem r v b).request
          (parse_header_line u mem r v b).saved
          (record (parse_header_line u mem r v b).buf { last = last }))
unfolding parse_header_line
resumed u mem r v b last m q x y =
    rw (finish_next v b _ m q x, y, state_at-index_of m.state)
      (finish-Agrees v _ b last q (scan (step u mem) last m q))

-- A parse of a header line that asked for more input goes on, when more has arrived, as if the whole
-- had been there from the start: the hash and the name in lower case are carried over.
pub parse_header_line_resumes :
    (u : Bool) (mem : Mem) (r : Request) (v : Saved) (b : Buf) (last : Ptr)
    → b.last ≤ last
    → (parse_header_line u mem r v b).code ≡ again
    → Agrees (parse_header_line u mem r v (record b { last = last })) (
        parse_header_line u mem
          (parse_header_line u mem r v b).request
          (parse_header_line u mem r v b).saved
          (record (parse_header_line u mem r v b).buf { last = last }))
parse_header_line_resumes u mem r v b last h e =
    let (m, q, x) =
      again_next v b (scan (step u mem) b.last (restored r v) b.pos)
        (unfold parse_header_line in e) in
    resumed u mem r v b last m q x (
      scan_resume (step u mem) (step_advances u mem) b.last last (b.last - b.pos) (restored r v) m
        b.pos q (omega arith) h x)
