-- ===== src/Http/HeaderLoop/Complete.antt =====
-- All headers of a request, where they are in the buffer and there is memory.
use mathlib.Core.List.{append_assoc, append-nil}
use mathlib.Core.Path.{subst}
use nginx_comment.Common.{
  ℕ, ◌+◌, ◌≤◌, ◌≡◌, ◌⊎◌, ◌∙◌, refl, sym, ap, true, false, List, [], ◌∷◌, ◌++◌, ==_ne, length,
  length-append, length-replicate, lt→ltb, replicate, if_true, if_false, arith, Mem, Ptr, At,
  At-append, At-moved,
}
use nginx_comment.Common.Scan.{Round, next, stop}
use nginx_comment.Http.Request.{Request, Buf, Saved, cr, lf}
use nginx_comment.Http.HeaderLine.{Machine, Exit, done, done_all, fail, finish, parse_header_line}
use nginx_comment.Http.HeaderLine.Complete.{parse_header_line_complete}
use nginx_comment.Http.Reading.{Input, got, read_request_header, replied}
use nginx_comment.Http.HeaderLoop.{
  Turn, Header, HeaderReader, complete, counted, after_line, after_header_read, headers_loop,
  process_request_headers,
}
use nginx_comment.Http.HeaderLoop.Block.{
  HeaderText, text, IsHeaderText, block, text_length, header_at, parse_header_line_empty,
}
use nginx_comment.Http.HeaderLoop.Taken.{taking, behind, line_step, line_element, line_spares}

-- A line, with what the system does in its round: an input, which is not asked for, and memory.
pub record Given : Type 0 where
  pub line : HeaderText
  pub input : Input
  pub memory : Ptr

abbrev pub lines : List Given → List HeaderText
lines [] = []
lines (g ∷ gs) = g.line ∷ lines gs

abbrev pub turns : List Given → Turn → List Turn
turns [] t = t ∷ []
turns (g ∷ gs) t = taking g.input g.memory ∷ turns gs t

abbrev pub block_length : List Given → ℕ
block_length [] = 2
block_length (g ∷ gs) = text_length g.line + block_length gs

-- The elements for lines that begin at `p`.
abbrev pub headers_at : List Given → Ptr → List Header
headers_at [] p = []
headers_at (g ∷ gs) p = header_at g.line p g.memory ∷ headers_at gs (p + text_length g.line)

-- Each line is well formed, and the memory for its name lies outside of the bytes from `start` to
-- `end`.
abbrev pub Fine : Ptr → Ptr → List Given → Type 0
Fine start end [] = Unit
Fine start end (g ∷ gs) =
    IsHeaderText g.line
    × ((g.memory + length (g.line.first ∷ g.line.more) ≤ start) ⊎ (end ≤ g.memory))
    × Fine start end gs

length-text : (l : HeaderText) → length (text l) ≡ text_length l
length-text l =
    let vs = l.value_first ∷ l.value_more in
    omega (
      arith,
      length-append (l.first ∷ l.more) ((b':' ∷ replicate l.gap b' ') ++ (vs ++ (cr ∷ lf ∷ []))),
      length-append (b':' ∷ replicate l.gap b' ') (vs ++ (cr ∷ lf ∷ [])),
      length-append vs (cr ∷ lf ∷ []),
      length-replicate {A = ℕ} l.gap b' ',
    )

length-block : (gs : List Given) → length (block (lines gs)) ≡ block_length gs
length-block [] = refl
length-block (g ∷ gs) =
    omega
      (arith, length-append (text g.line) (block (lines gs)), length-text g.line, length-block gs)

finish_last : (v : Saved) (b : Buf) (r : Round Machine Exit) → (finish v b r).buf.last ≡ b.last
unfolding finish
finish_last v b (next m p) = refl
finish_last v b (stop (done m p)) = refl
finish_last v b (stop (done_all m p)) = refl
finish_last v b (stop (fail m)) = refl

reply_last :
    (mem : Mem) (r : Request) (v : Saved) (b : Buf)
    → (parse_header_line true mem r v b).buf.last ≡ b.last
unfolding parse_header_line
reply_last mem r v b = finish_last v b _

module _ (last_turn : Turn) (start : Ptr) where
  -- How the loop ends on lines that begin where the reader stands.
  abbrev Ends : List Given → HeaderReader → Type 0
  Ends gs h =
      (h' : HeaderReader) × (headers_loop (turns gs last_turn) false h ≡ complete h')
      × (h'.headers ≡ h.headers ++ headers_at gs h.reader.header_in.pos)
      × (h'.reader.header_in.pos ≡ h.reader.header_in.pos + block_length gs)

  loop_lem :
      (gs : List Given) (h : HeaderReader)
      → start ≤ h.reader.header_in.pos
      → Fine start h.reader.header_in.last gs
      → h.reader.saved.state ≡ 0
      → At h.reader.mem h.reader.header_in.pos (block (lines gs))
      → h.reader.header_in.pos + block_length gs ≤ h.reader.header_in.last
      → Ends gs h
  unfolding headers_loop after_line
  loop_lem [] h le f s a b =
      let e =
        parse_header_line_empty true h.reader.mem h.reader.r h.reader.saved h.reader.header_in s a
          b in
      let x = parse_header_line true h.reader.mem h.reader.r h.reader.saved h.reader.header_in in
      (
        record h { reader = counted (replied x h.reader) },
        ap
            (λ c.
              after_line (headers_loop []) last_turn c (record h { reader = replied x h.reader }))
            e.code,
        sym (append-nil h.headers),
        e.behind,
      )
  loop_lem (g ∷ gs) h le f s a b =
      let l = g.line in
      let p = h.reader.header_in.pos in
      let loop = headers_loop (turns gs last_turn) in
      let x = parse_header_line true h.reader.mem h.reader.r h.reader.saved h.reader.header_in in
      let (first, rest) = At-append h.reader.mem p (text l) (block (lines gs)) a in
      let read =
        parse_header_line_complete true h.reader.mem h.reader.r h.reader.saved h.reader.header_in
          l.first l.more l.gap l.value_first l.value_more s first f.0.name f.0.value_start f.0.value
          f.0.value_end (omega arith) in
      let pos : x.buf.pos ≡ p + text_length l = omega (arith, read.behind) in
      let last : x.buf.last ≡ h.reader.header_in.last =
        reply_last h.reader.mem h.reader.r h.reader.saved h.reader.header_in in
      let h2 = behind h x g.memory in
      let spared =
        line_spares loop g.input g.memory h l p (block (lines gs)) read
          (ground (arith, length-block gs))
          (At-moved h.reader.mem (block (lines gs)) (omega (arith, length-text l, pos)) rest) in
      let (h', ends, heads, at) =
        loop_lem gs h2 (omega (arith, pos)) (subst (λ k. Fine start k gs) (sym last) f.2) read.state
          spared (omega (arith, pos, last)) in
      (
        h',
        line_step loop g.input g.memory h l p read ∙ ends,
        heads
            ∙ append_assoc h.headers _ _
            ∙ ap (λ (e : Header). h.headers ++ (e ∷ headers_at gs x.buf.pos))
                (line_element loop g.input g.memory h l p read)
            ∙ ap (λ q. h.headers ++ (header_at l p g.memory ∷ headers_at gs q)) pos,
        omega (arith, at, pos),
      )

-- What has been received holds all headers: well-formed lines and the empty line, none of which the
-- parser has begun with, in a buffer that is not at its end; the memory for their names lies outside
-- of it.
pub record IsReceived (gs : List Given) (h : HeaderReader) : Type 0 where
  pub in_time : h.reader.rev_timedout ≡ false
  pub fresh : h.reader.saved.state ≡ 0
  pub held : At h.reader.mem h.reader.header_in.pos (block (lines gs))
  pub within : h.reader.header_in.pos + block_length gs ≤ h.reader.header_in.last
  pub room : h.reader.header_in.last ≤ h.reader.end
  pub fine : Fine h.reader.header_in.pos h.reader.header_in.last gs

block_length-pos : (gs : List Given) → 1 ≤ block_length gs
block_length-pos [] = omega arith
block_length-pos (g ∷ gs) = omega arith

module _ (gs : List Given) (t : Turn) (h : HeaderReader) (r : IsReceived gs h) where
  read_lem : (i : Input) → read_request_header i h.reader ≡ (got, h.reader)
  unfolding read_request_header
  read_lem i = if_true _ (
      lt→ltb h.reader.header_in.pos h.reader.header_in.last
        (omega (arith, r.within, block_length-pos gs)))

  first_turn :
      (u : Turn) (us : List Turn) → headers_loop (u ∷ us) true h ≡ headers_loop (u ∷ us) false h
  unfolding headers_loop after_header_read
  first_turn u us =
      if_false _ (
        ==_ne h.reader.header_in.pos h.reader.end
          (λ e. omega (arith, e, r.within, r.room, block_length-pos gs)))
      ∙ ap (after_header_read (headers_loop us) u h) (read_lem u.input)

  begins : (gs : List Given) → headers_loop (turns gs t) true h ≡ headers_loop (turns gs t) false h
  begins [] = first_turn t []
  begins (g ∷ gs) = first_turn (taking g.input g.memory) (turns gs t)

  -- The buffer holds, from the position on, any number of header lines and the empty line, before the
  -- room of the buffer ends. Each line has a name of letters, digits and dashes, a colon, any number of
  -- spaces, a value that has a byte or more and neither begins nor ends in a space, and CR LF. The read
  -- event is not late, the parser has begun with no line, and each header is given memory that lies
  -- outside of what was received. Then `ngx_http_process_request_headers` comes to the end of the headers and
  -- goes on to the answer: the list has one new element for each of those lines, in their order, with
  -- the hash of its name in lower case, the places of its name and its value and the memory for the
  -- name, and the position stands behind the empty line.
  pub process_request_headers_lem :
      (h' : HeaderReader) × (process_request_headers (turns gs t) h ≡ complete h')
      × (h'.headers ≡ h.headers ++ headers_at gs h.reader.header_in.pos)
      × (h'.reader.header_in.pos ≡ h.reader.header_in.pos + block_length gs)
  unfolding process_request_headers
  process_request_headers_lem =
      let (h', e, heads, at) =
        loop_lem t h.reader.header_in.pos gs h (omega arith) r.fine r.fresh r.held r.within in
      (h', if_false _ r.in_time ∙ begins gs ∙ e, heads, at)
