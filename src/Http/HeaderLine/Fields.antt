-- ===== src/Http/HeaderLine/Fields.antt =====
-- The order of the pointers and the bounds of the lower-case name, in every state of the header
-- line's parser and when it has read a line.
use nginx_comment.Common.{
  ℕ, ◌+◌, ◌-◌, ◌%◌, ◌≤◌, ◌<◌, ◌≡◌, ◌⊎◌, arith, Bool, true, length, length-set, Mem, Ptr,
}
use nginx_comment.Common.Scan.{Round, next, stop, Keeps, Ends, scan_inv}
use nginx_comment.Http.Request.{
  Code, ok, again, header_done, Buf, Request, Saved, Reply, created, cleared, lc_header_len,
}
use nginx_comment.Http.HeaderLine.{
  HeaderState, start, name, space_before_value, value, space_after_value, almost_done,
  header_almost_done, lowcase, state_at, Machine, Exit, done, done_all, fail, step_in, step,
  restored, finish, parse_header_line,
}
use nginx_comment.Http.HeaderLine.Steps.{state_at-index_of, step_advances}

-- The write of the next byte of the name in lower case is inside its array.
abbrev pub Room : Machine → Type 0
Room m = (m.i < lc_header_len) × (length m.request.lowcase_header ≡ lc_header_len)

-- The index follows the length of the name, as long as every byte of it was stored.
abbrev pub Counted : Machine → Ptr → Type 0
Counted m p =
    (m.request.invalid_header ≡ true) ⊎ (m.i ≡ (p - m.request.header_name_start) % lc_header_len)

-- A name up to `header_name_end`, which is before `p`.
abbrev pub Named : Machine → Ptr → Type 0
Named m p =
    (m.request.header_name_start < m.request.header_name_end)
    × (m.request.header_name_end < p)
    × Counted m m.request.header_name_end

abbrev pub Reading : HeaderState → Machine → Ptr → Type 0
Reading start m p = Room m
Reading name m p = Room m × (m.request.header_name_start < p) × Counted m p
Reading space_before_value m p = Room m × Named m p
Reading value m p = Room m × Named m m.request.header_start × (m.request.header_start < p)
Reading space_after_value m p =
    Room m
    × Named m m.request.header_start
    × (m.request.header_start < m.request.header_end)
    × (m.request.header_end < p)
Reading almost_done m p =
    Room m
    × Named m (m.request.header_start + 1)
    × (m.request.header_start ≤ m.request.header_end)
    × (m.request.header_end < p)
Reading header_almost_done m p = Room m × (m.request.header_name_start < p)
Reading _ m p = ⊥

abbrev pub Exits : ℕ → Exit → Type 0
Exits last (done m p) =
    Room m
    × Named m (m.request.header_start + 1)
    × (m.request.header_start ≤ m.request.header_end)
    × (m.request.header_end ≤ p)
    × (p < last)
Exits last (done_all m p) = (m.request.header_name_start ≤ p) × (p < last)
Exits last (fail m) = Unit

-- The loop's invariant.
abbrev pub InOrder : ℕ → Machine → ℕ → Type 0
InOrder last m q = Reading m.state m q × (q ≤ last)

step_in-Reading :
    (s : HeaderState) (u : Bool) (mem : Mem) (m : Machine) (p last : ℕ)
    → Reading s m p
    → p < last
    → Keeps (InOrder last) (Exits last) (step_in s u mem m p)
unfolding step_in
step_in-Reading start u mem m p last h lt = ground (
  arith,
  length-set m.request.lowcase_header 0 (lowcase (mem p)),
  length-set m.request.lowcase_header 0 (mem p),
)
step_in-Reading name u mem m p last h lt = ground (
  arith,
  length-set m.request.lowcase_header m.i (lowcase (mem p)),
  length-set m.request.lowcase_header m.i (mem p),
)
step_in-Reading _ u mem m p last h lt = ground arith

-- A parse may begin.
pub record InProgress (r : Request) (v : Saved) (b : Buf) : Type 0 where
  pub reading : Reading (state_at v.state) (restored r v) b.pos
  pub inside : b.pos ≤ b.last

-- What a line that has been read comes to: the name, and the value behind it, lie in order in the
-- bytes that have been read; and the index is the length of the name, up to the array's size,
-- unless the name is invalid.
pub record HasRead (r : Request) (v : Saved) (b : Buf) : Type 0 where
  pub name : r.header_name_start < r.header_name_end
  pub name_end : r.header_name_end ≤ r.header_start
  pub value : r.header_start ≤ r.header_end
  pub value_end : r.header_end < b.pos
  pub inside : b.pos ≤ b.last
  pub index :
      (r.invalid_header ≡ true)
      ⊎ (v.lowcase_index ≡ (r.header_name_end - r.header_name_start) % lc_header_len)
  pub next : InProgress r v b

abbrev pub Kept : Code → Reply → Type 0
Kept ok x = HasRead x.request x.saved x.buf
Kept again x = InProgress x.request x.saved x.buf × (x.buf.pos ≡ x.buf.last)
Kept header_done x =
    (x.request.header_name_start < x.buf.pos) × (x.buf.pos ≤ x.buf.last) × (x.saved.state ≡ 0)
Kept _ x = Unit

done-Kept :
    (v : Saved) (b : Buf) (m : Machine) (p : Ptr)
    → Exits b.last (done m p)
    → Kept ok (finish v b (stop (done m p)))
unfolding finish state_at
done-Kept v b m p (room, named, le, ends, lt) = record {
  name = named.0;
  name_end = omega arith;
  value = le;
  value_end = omega arith;
  inside = omega arith;
  index = named.2;
  next = record { reading = room; inside = omega arith };
}

finish-Kept :
    (v : Saved) (b : Buf) (x : Round Machine Exit)
    → Ends b.last (InOrder b.last) (Exits b.last) x
    → Kept (finish v b x).code (finish v b x)
finish-Kept v b (next m q) (k, e) =
    unfold finish in
    (record { reading = rw (state_at-index_of m.state) k.0; inside = k.1 }, omega arith)
finish-Kept v b (stop (done m p)) h = unfold finish in done-Kept v b m p h
finish-Kept v b (stop (done_all m p)) h = unfold finish in omega arith
finish-Kept v b (stop (fail m)) h = unfold finish in tt

-- From a request in progress, whose fields are as its saved state says, the parser of header lines
-- writes the name in lower case inside its array and keeps the pointers in order, however the input
-- is cut into pieces: it asks for more at the end of the input with
-- the invariant kept, or refuses, or ends the header, or has read a line whose name and value lie
-- in order in the bytes read, ready for the next line.
pub parse_header_line_keeps :
    (u : Bool) (mem : Mem) (r : Request) (v : Saved) (b : Buf)
    → InProgress r v b
    → Kept (parse_header_line u mem r v b).code (parse_header_line u mem r v b)
unfolding parse_header_line
parse_header_line_keeps u mem r v b h = finish-Kept v b _ (
    scan_inv (step u mem) (step_advances u mem) (InOrder b.last) (Exits b.last) b.last
      (λ m p k lt. step_in-Reading m.state u mem m p b.last k.0 lt) (b.last - b.pos) (restored r v)
      b.pos (omega arith) (h.reading, h.inside))

-- A request that has just been created is in progress.
pub created-InProgress : (b : Buf) → b.pos ≤ b.last → InProgress created cleared b
unfolding state_at
created-InProgress b h = record { reading = omega arith; inside = h }
