-- ===== src/Http/RequestLine/Fields.antt =====
-- What the parser of the request line knows of the fields in each state, and what the fields are
-- when it accepts: the version, the method, and the order of the pointers.
use nginx_comment.Common.{ℕ, ◌+◌, ◌-◌, ◌≤◌, ◌<◌, ◌≡◌, ◌≢◌, ◌⊎◌, refl, arith, Mem, Ptr}
use nginx_comment.Common.Scan.{Round, next, stop, Keeps, Ends, scan_inv}
use nginx_comment.Http.Request.{
  Code, ok, again, Buf, Request, Saved, Reply, created, cleared, http_get,
}
use nginx_comment.Http.RequestLine.{
  LineState, start, method, spaces_before_uri, after_slash_in_uri, other, state_at, Machine, Exit,
  done, fail, step_in, step, finish, parse_request_line,
}
use nginx_comment.Http.RequestLine.Steps.{state_at-index_of, step_advances}

-- The version has not overflowed its 16 bits, and no end has been noted.
abbrev pub Numbers : Request → Type 0
Numbers r = (r.http_major ≤ 1) × (r.http_minor ≤ 999) × (r.request_end ≡ 0)

abbrev pub Method : Request → Ptr → Type 0
Method r p = (r.method ≡ http_get) × (r.method_end ≡ r.request_start + 3) × (r.method_end ≤ p)

-- The uri lies between the method and `p`.
abbrev pub Uri : Request → Ptr → Type 0
Uri r p = Method r r.uri_start × (r.uri_start < r.uri_end) × (r.uri_end < p)

abbrev pub Reading : LineState → Request → Ptr → Type 0
Reading start r p = Numbers r
Reading method r p = Numbers r × (p ≡ r.request_start + 1)
Reading spaces_before_uri r p = Numbers r × Method r p
Reading after_slash_in_uri r p = Numbers r × Method r r.uri_start × (r.uri_start < p)
Reading (other k) r p = ⊥
Reading _ r p = Numbers r × Uri r p

-- At an exit.
abbrev pub Exits : ℕ → Exit → Type 0
Exits last (fail c r) = (c ≢ ok) × (c ≢ again)
Exits last (done r p) =
    (r.http_major ≤ 1)
    × (r.http_minor ≤ 999)
    × Uri r (p + 1)
    × ((r.request_end ≡ 0) ⊎ ((r.uri_end ≤ r.request_end) × (r.request_end ≤ p)))
    × (p < last)

-- The loop's invariant.
abbrev pub InOrder : ℕ → Machine → ℕ → Type 0
InOrder last m q = Reading m.state m.request q × (0 < q) × (q ≤ last + 1)

pub step_in-Reading :
    (s : LineState) (mem : Mem) (r : Request) (p last : ℕ)
    → Reading s r p
    → 0 < p
    → p < last
    → Keeps (InOrder last) (Exits last) (step_in s mem r p)
unfolding step_in
step_in-Reading start mem r p last h pos lt = ground arith
step_in-Reading _ mem r p last h pos lt = ground arith

-- A parse may begin: the fields are as the saved state says.
pub record InProgress (r : Request) (v : Saved) (b : Buf) : Type 0 where
  pub reading : Reading (state_at v.state) r b.pos
  pub not_null : 0 < b.pos
  pub not_past : b.pos ≤ b.last + 1

-- What an accepted line comes to: HTTP/1.1 or a later 1.x, the method GET, and pointers in order
-- inside the part of the buffer that has been read.
pub record Accepted (r : Request) (v : Saved) (b : Buf) : Type 0 where
  pub major : r.http_major ≡ 1
  pub minor : (1 ≤ r.http_minor) × (r.http_minor ≤ 999)
  pub version : r.http_version ≡ 1000 + r.http_minor
  pub method : r.method ≡ http_get
  pub method_end : r.method_end ≡ r.request_start + 3
  pub before_uri : r.method_end ≤ r.uri_start
  pub uri : r.uri_start < r.uri_end
  pub request_end : (r.uri_end ≤ r.request_end) × (r.request_end < b.pos)
  pub inside : b.pos ≤ b.last
  pub state : v.state ≡ 0

abbrev pub Kept : Code → Reply → Type 0
Kept ok x = Accepted x.request x.saved x.buf
Kept again x = InProgress x.request x.saved x.buf × (x.buf.last ≤ x.buf.pos)
Kept _ x = Unit

-- The end of a scan that kept to the fields.
abbrev Fits : ℕ → Round Machine Exit → Type 0
Fits last = Ends last (InOrder last) (Exits last)

done-Kept :
    (v : Saved) (b : Buf) (r : Request) (p : Ptr)
    → Exits b.last (done r p)
    → Kept (finish v b (stop (done r p))).code (finish v b (stop (done r p)))
unfolding finish
done-Kept v b r p h = ground arith

fail-Kept : (x : Reply) (c : Code) → (c ≢ ok) × (c ≢ again) → Kept c x
fail-Kept x ok h = absurd (h.0 refl)
fail-Kept x again h = absurd (h.1 refl)
fail-Kept x _ h = tt

finish-Kept :
    (v : Saved) (b : Buf) (x : Round Machine Exit)
    → Fits b.last x
    → Kept (finish v b x).code (finish v b x)
unfolding finish
finish-Kept v b (next m q) (k, e) =
    (record { reading = rw (state_at-index_of m.state) k.0; not_null = k.1; not_past = k.2 }, e)
finish-Kept v b (stop (done r p)) h = done-Kept v b r p h
finish-Kept v b (stop (fail c r)) h = fail-Kept _ c h

-- From a request in progress, whose fields are as its saved state says, the request line's parser
-- keeps the fields in order, however the input is cut into pieces: it either asks for more with the invariant kept, or refuses, or accepts a line of HTTP/1.1 or a
-- later 1.x whose pointers lie in order inside the bytes that have been read.
pub parse_request_line_keeps :
    (mem : Mem) (r : Request) (v : Saved) (b : Buf)
    → InProgress r v b
    → Kept (parse_request_line mem r v b).code (parse_request_line mem r v b)
unfolding parse_request_line
parse_request_line_keeps mem r v b h = finish-Kept v b _ (
    scan_inv (step mem) (step_advances mem) (InOrder b.last) (Exits b.last) b.last
      (λ m p k lt. step_in-Reading m.state mem m.request p b.last k.0 k.1 lt) (b.last - b.pos) _
      b.pos (omega arith) (h.reading, h.not_null, h.not_past))

-- A request that has just been created is in progress.
pub created-InProgress : (b : Buf) → 0 < b.pos → b.pos ≤ b.last + 1 → InProgress created cleared b
unfolding state_at
created-InProgress b h k = record { reading = omega arith; not_null = h; not_past = k }
