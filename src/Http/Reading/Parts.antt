-- ===== src/Http/Reading/Parts.antt =====
-- What the parse of a part of a request line says of the whole, and memory behind two writes.
use nginx_comment.Common.{
  ◌+◌, ◌-◌, ◌<◌, ◌≤◌, ◌≡◌, ◌≢◌, ◌⊎◌, refl, sym, ap, ◌∙◌, [], ◌∷◌, ◌++◌, ◌==◌, ==_ne, if◌then◌else◌,
  if_false, inl, inr, arith, length, Mem, Ptr, Bytes,
}
use nginx_comment.Common.Scan.{Round, next, stop, scan, scan_stops, scan_end}
use nginx_comment.Http.Request.{
  Code, ok, again, header_done, invalid_method, invalid_request, invalid_version, invalid_header,
  Buf, Request, Saved, Reply,
}
use nginx_comment.Http.RequestLine.{
  Machine, Exit, fail, done, state_at, step, finish, parse_request_line,
}
use nginx_comment.Http.RequestLine.Steps.{step_advances}
use nginx_comment.Http.Reading.{write_at}

-- What an accepted reply says of the request and of the bytes behind the line.
abbrev pub Says : Reply → Reply → Type 0
Says x y = (x.code ≡ ok) × (x.request ≡ y.request) × (x.buf.pos ≡ y.buf.pos)

finish-Says :
    (v : Saved) (b : Buf) (last : Ptr) (x : Round Machine Exit)
    → (finish v b x).code ≢ again
    → (finish v (record b { last = last }) x).code ≡ ok
    → Says (finish v b x) (finish v (record b { last = last }) x)
unfolding finish
finish-Says v b last (next m p) n e = absurd (n refl)
finish-Says v b last (stop (fail c r)) n e = (e, refl, refl)
finish-Says v b last (stop (done r p)) n e = (e, refl, refl)

finish-stop :
    (v : Saved) (b : Buf) (x : Round Machine Exit)
    → (finish v b x).code ≢ again
    → (y : Exit) × (x ≡ stop y)
unfolding finish
finish-stop v b (next m p) n = absurd (n refl)
finish-stop v b (stop y) n = (y, refl)

-- A parse that is decided before the last byte of an accepted line has that line's result.
pub decided :
    (mem : Mem) (r : Request) (v : Saved) (b : Buf) (last : Ptr)
    → b.last ≤ last
    → (parse_request_line mem r v b).code ≢ again
    → (parse_request_line mem r v (record b { last = last })).code ≡ ok
    → Says (parse_request_line mem r v b) (parse_request_line mem r v (record b { last = last }))
unfolding parse_request_line
decided mem r v b last h n e =
    let m0 : Machine = record { state = state_at v.state; request = r } in
    let (y, x) = finish-stop v b (scan (step mem) b.last m0 b.pos) n in
    let x' =
      scan_stops (step mem) (step_advances mem) (b.last) last (b.last - b.pos) m0 (b.pos) y
        (omega arith) h x in
    rw (x, x')
      (finish-Says v b last (stop y) (λ k. n (ap (λ z. (finish v b z).code) x ∙ k))
        (sym (ap (λ z. (finish v (record b { last = last }) z).code) x') ∙ e))

pub write_at-append :
    (p : Ptr) (xs ys : Bytes) (mem : Mem)
    → write_at p (xs ++ ys) mem ≡ write_at (p + length xs) ys (write_at p xs mem)
write_at-append p [] ys mem = ap (λ q. write_at q ys mem) (omega arith)
write_at-append p (x ∷ xs) ys mem =
    let mem1 : Mem = λ q. if q == p then x else mem q in
    write_at-append (p + 1) xs ys mem1
    ∙ ap (λ q. write_at q ys (write_at (p + 1) xs mem1)) (omega arith)

pub write_at-before :
    (p : Ptr) (bs : Bytes) (mem : Mem) (q : Ptr) → q < p → write_at p bs mem q ≡ mem q
write_at-before p [] mem q h = refl
write_at-before p (b ∷ bs) mem q h =
    write_at-before (p + 1) bs (λ q. if q == p then b else mem q) q (omega arith)
    ∙ if_false _ (==_ne q p (λ e. omega arith))

finish-last : (v : Saved) (b : Buf) (x : Round Machine Exit) → (finish v b x).buf.last ≡ b.last
unfolding finish
finish-last v b (next m p) = refl
finish-last v b (stop (fail c r)) = refl
finish-last v b (stop (done r p)) = refl

pub parse-last :
    (mem : Mem) (r : Request) (v : Saved) (b : Buf)
    → (parse_request_line mem r v b).buf.last ≡ b.last
unfolding parse_request_line
parse-last mem r v b =
    finish-last v b
      (scan (step mem) b.last (record { state = state_at v.state; request = r }) b.pos)

pub parse-nothing :
    (mem : Mem) (r : Request) (v : Saved) (b : Buf)
    → b.last ≤ b.pos
    → (parse_request_line mem r v b).code ≡ again
unfolding parse_request_line finish
parse-nothing mem r v b h =
    rw
      (scan_end (step mem) (step_advances mem) (b.last)
        (record { state = state_at v.state; request = r }) (b.pos) h)
      refl

pub again_or_not : (c : Code) → (c ≡ again) ⊎ (c ≢ again)
again_or_not again = inl refl
again_or_not ok = inr (λ e. ground arith)
again_or_not header_done = inr (λ e. ground arith)
again_or_not invalid_method = inr (λ e. ground arith)
again_or_not invalid_request = inr (λ e. ground arith)
again_or_not invalid_version = inr (λ e. ground arith)
again_or_not invalid_header = inr (λ e. ground arith)

pub ok≢again : ok ≢ again
ok≢again e = ground arith
