-- ===== src/Http/Reading/Pieces.antt =====
-- A request line that arrives in any pieces.
use mathlib.Core.Path.{subst}
use nginx_comment.Common.{
  suc, ◌+◌, ◌-◌, ◌<◌, ◌≤◌, ◌≡◌, ◌≢◌, ◌⊎◌, sym, ap, ◌∙◌, Bool, true, false, List, [], ◌∷◌, ◌++◌, ltb,
  ==_ne, ge→ltb, if_false, inl, inr, arith, map, length, length-append, take_whole, Mem, Ptr, Bytes,
}
use nginx_comment.Http.Request.{Code, ok, again, Buf, Request, Reply}
use nginx_comment.Http.RequestLine.{start, state_at, parse_request_line}
use nginx_comment.Http.RequestLine.Resume.{Agrees, parse_request_line_resumes}
use nginx_comment.Http.RequestLine.Arrived.{
  Arrived, Past, Past-Arrived, parse_request_line_same, parse_request_line-Past,
}
use nginx_comment.Http.Headers.Key.{write_at-At}
use nginx_comment.Http.RequestLine.Fields.{InProgress, Kept, parse_request_line_keeps}
use nginx_comment.Http.Reading.{
  received, Input, Reader, got, write_at, after_recv, read_request_header, line_read, after_parse,
  replied, reply, after_read, line_loop, process_request_line,
}
use nginx_comment.Http.Reading.Parts.{
  Says, decided, write_at-append, write_at-before, parse-last, parse-nothing, again_or_not,
  ok≢again,
}

-- A piece that `recv` returns at once.
abbrev pub arrives : Bytes → Input
arrives bytes = record { ready = true; recv = received bytes; rearmed = true }

abbrev pub joined_pieces : List Bytes → Bytes
joined_pieces [] = []
joined_pieces (bs ∷ pieces) = bs ++ joined_pieces pieces

abbrev pub AllSome : List Bytes → Type 0
AllSome [] = Unit
AllSome (bs ∷ pieces) = (0 < length bs) × AllSome pieces

-- The parse of the whole, had `recv` returned all the pieces at once.
abbrev pub whole : List Bytes → Reader → Reply
whole pieces s =
    parse_request_line (write_at s.header_in.last (joined_pieces pieces) s.mem) (s.r) (s.saved)
      (record s.header_in { last = s.header_in.last + length (joined_pieces pieces) })

-- Four bytes at least, the first of which is the letter G.
abbrev pub HasMethod : Bytes → Type 0
HasMethod (a ∷ (b ∷ (c ∷ (d ∷ bs)))) = a ≡ b'G'
HasMethod _ = ⊥

-- The method was read, or the first piece has all of it.
abbrev pub Begins : List Bytes → Reader → Type 0
Begins [] s = Unit
Begins (bs ∷ pieces) s =
    Past (state_at s.saved.state)
    ⊎ ((state_at s.saved.state ≡ start) × (s.header_in.pos ≡ s.header_in.last) × HasMethod bs)

-- A reader that has parsed what there is and has room for the pieces.
pub record IsAwaiting (pieces : List Bytes) (s : Reader) : Type 0 where
  pub progress : InProgress (s.r) (s.saved) (s.header_in)
  pub parsed : s.header_in.last ≤ s.header_in.pos
  pub begins : Begins pieces s
  pub room : suc (s.header_in.last + length (joined_pieces pieces)) < s.end

abbrev Line : Bool → List Bytes → Reader → Type 0
Line listed pieces s =
    (t : Reader) × (line_loop listed (map arrives pieces) s ≡ line_read listed t)
    × (t.r ≡ (whole pieces s).request)
    × (t.header_in.pos ≡ (whole pieces s).buf.pos)

-- The reader behind one piece.
abbrev grown : Bytes → Reader → Reader
grown bs s = record s {
  mem = write_at s.header_in.last bs s.mem;
  header_in = record s.header_in { last = s.header_in.last + length bs };
}

read_piece :
    (bs : Bytes) (pieces : List Bytes) (s : Reader)
    → 0 < length bs
    → IsAwaiting (bs ∷ pieces) s
    → read_request_header (arrives bs) s ≡ (got, grown bs s)
unfolding read_request_header after_recv
read_piece [] pieces s n h = absurd (omega arith)
read_piece (b ∷ bt) pieces s n h =
    let bs = b ∷ bt in
    let fits : length bs ≤ s.end - s.header_in.last =
      omega (arith, h.room, length-append bs (joined_pieces pieces)) in
    if_false {b = ltb (s.header_in.pos) (s.header_in.last)} _
      (ge→ltb (s.header_in.pos) (s.header_in.last) (h.parsed))
    ∙ ap (λ t. after_recv true (received t) s) (take_whole (s.end - s.header_in.last) bs fits)

-- The method has arrived with the piece.
HasMethod-Arrived :
    (bs : Bytes) (mem : Mem) (r : Request) (p : Ptr)
    → HasMethod bs
    → Arrived (write_at p bs mem) (p + length bs) start r p
HasMethod-Arrived [] mem r p h = absurd h
HasMethod-Arrived (a ∷ []) mem r p h = absurd h
HasMethod-Arrived (a ∷ (b ∷ [])) mem r p h = absurd h
HasMethod-Arrived (a ∷ (b ∷ (c ∷ []))) mem r p h = absurd h
HasMethod-Arrived (a ∷ (b ∷ (c ∷ (d ∷ bs)))) mem r p h =
    ((write_at-At mem p (a ∷ (b ∷ (c ∷ (d ∷ bs))))).0 ∙ h, omega arith)

Begins-Arrived :
    (bs : Bytes) (pieces : List Bytes) (s : Reader)
    → Begins (bs ∷ pieces) s
    → Arrived
        (write_at s.header_in.last bs s.mem)
        (s.header_in.last + length bs)
        (state_at s.saved.state)
        s.r
        s.header_in.pos
Begins-Arrived bs pieces s (inl past) =
    Past-Arrived (write_at s.header_in.last bs s.mem) (s.header_in.last + length bs)
      (state_at s.saved.state) s.r s.header_in.pos past
Begins-Arrived bs pieces s (inr (e, same, h)) =
    let mem = write_at s.header_in.last bs s.mem in
    let far = s.header_in.last + length bs in
    subst (λ q. Arrived mem far (state_at s.saved.state) s.r q) (sym same)
      (subst (λ t. Arrived mem far t s.r s.header_in.last) (sym e)
        (HasMethod-Arrived bs s.mem s.r s.header_in.last h))

Past-Begins : (pieces : List Bytes) (s : Reader) → Past (state_at s.saved.state) → Begins pieces s
Past-Begins [] s h = tt
Past-Begins (bs ∷ pieces) s h = inl h

-- The parser behind a piece says what it says with the later pieces in memory.
piece_reply :
    (bs : Bytes) (pieces : List Bytes) (s : Reader)
    → Begins (bs ∷ pieces) s
    → reply (grown bs s)
      ≡ parse_request_line
          (write_at s.header_in.last (bs ++ joined_pieces pieces) s.mem)
          s.r
          s.saved
          (record s.header_in { last = s.header_in.last + length bs })
piece_reply bs pieces s h =
    let p = s.header_in.last in
    parse_request_line_same (write_at p bs s.mem) (write_at p (bs ++ joined_pieces pieces) s.mem)
      s.r s.saved (record s.header_in { last = p + length bs })
      (λ q lt. sym (
        ap (λ (m : Mem). m q) (write_at-append p bs (joined_pieces pieces) s.mem)
        ∙ write_at-before (p + length bs) (joined_pieces pieces) (write_at p bs s.mem) q lt))
      (Begins-Arrived bs pieces s h)

line_lem :
    (listed : Bool) (pieces : List Bytes) (s : Reader)
    → IsAwaiting pieces s
    → AllSome pieces
    → (whole pieces s).code ≡ ok
    → Line listed pieces s
unfolding line_loop after_read after_parse
line_lem listed [] s h a e =
    let k =
      parse-nothing (s.mem) (s.r) (s.saved) (record s.header_in { last = s.header_in.last + 0 })
        (omega (arith, h.parsed)) in
    absurd (ok≢again (sym e ∙ k))
line_lem listed (bs ∷ pieces) s h a e =
    let s1 = grown bs s in
    let rep = reply s1 in
    let t = replied rep s1 in
    let all = write_at s.header_in.last (bs ++ joined_pieces pieces) s.mem in
    let seen : rep ≡ parse_request_line all s.r s.saved s1.header_in =
      piece_reply bs pieces s h.begins in
    let loop = line_loop listed (map arrives pieces) in
    let far = s.header_in.last + length (bs ++ joined_pieces pieces) in
    let sizes = length-append bs (joined_pieces pieces) in
    let front : line_loop listed (map arrives (bs ∷ pieces)) s
        ≡ after_parse loop listed (rep.code) t =
      ap (after_read loop listed) (read_piece bs pieces s a.0 h) in
    let by : (c : Code)
        → rep.code ≡ c
        → line_loop listed (map arrives (bs ∷ pieces)) s ≡ after_parse loop listed c t =
      λ c k. front ∙ ap (λ c. after_parse loop listed c t) k in
    elim (again_or_not (rep.code)) [
      | inr n ↦
          let (c, q, p) : Says rep (whole (bs ∷ pieces) s) =
            subst (λ x. Says x (whole (bs ∷ pieces) s)) (sym seen)
              (decided all (s.r) (s.saved) (s1.header_in) far (omega (arith, sizes))
                (λ k. n (ap (λ (x : Reply). x.code) seen ∙ k)) e) in
          (t, by ok c, q, p)
      | inl k ↦
          let begun : InProgress (s.r) (s.saved) (s1.header_in) = record {
            reading = h.progress.reading;
            not_null = h.progress.not_null;
            not_past = omega (arith, h.progress.not_past);
          } in
          let keeps : Kept again rep =
            subst (λ c. Kept c rep) k
              (parse_request_line_keeps (s1.mem) (s.r) (s.saved) (s1.header_in) begun) in
          let past =
            parse_request_line-Past s1.mem s.r s.saved s1.header_in
              (Begins-Arrived bs pieces s h.begins) k in
          let lst : rep.buf.last ≡ s1.header_in.last =
            parse-last (s1.mem) (s.r) (s.saved) (s1.header_in) in
          let agrees : Agrees (whole (bs ∷ pieces) s)
              (parse_request_line all rep.request rep.saved (record rep.buf { last = far })) =
            subst
              (λ x.
                Agrees (whole (bs ∷ pieces) s)
                  (parse_request_line all x.request x.saved (record x.buf { last = far })))
              (sym seen)
              (parse_request_line_resumes all (s.r) (s.saved) (s1.header_in) far
                (omega (arith, sizes)) (ap (λ (x : Reply). x.code) (sym seen) ∙ k)) in
          let awaiting : IsAwaiting pieces t = record {
            progress = keeps.0;
            parsed = keeps.1;
            begins = Past-Begins pieces t past;
            room = omega (arith, sizes, lst, h.room);
          } in
          let same_mem : write_at rep.buf.last (joined_pieces pieces) s1.mem ≡ all =
            ap (λ q. write_at q (joined_pieces pieces) s1.mem) lst
            ∙ sym (write_at-append s.header_in.last bs (joined_pieces pieces) s.mem) in
          let same : whole pieces t
              ≡ parse_request_line all (rep.request) (rep.saved) (record rep.buf { last = far }) =
            ap
              (λ m.
                parse_request_line m rep.request rep.saved
                  (record rep.buf { last = rep.buf.last + length (joined_pieces pieces) }))
              same_mem
            ∙ ap
                (λ l.
                  parse_request_line all (rep.request) (rep.saved) (record rep.buf { last = l }))
                {x = rep.buf.last + length (joined_pieces pieces)} {y = far}
                (omega (arith, sizes, lst)) in
          let (u, g, q, p) =
            line_lem listed pieces t awaiting a.1
              (ap (λ (x : Reply). x.code) same ∙ sym (agrees.code) ∙ e) in
          let pos : t.header_in.pos ≢ t.end =
            λ i. omega (arith, i, keeps.0.not_past, lst, sizes, h.room) in
          (
            u,
            by again k ∙ if_false _ (==_ne (t.header_in.pos) (t.end) pos) ∙ g,
            q ∙ ap (λ (x : Reply). x.request) same ∙ sym (agrees.request),
            p ∙ ap (λ (x : Reply). x.buf.pos) same ∙ elim (agrees.kept) [
              | inl w ↦ ap (λ (b : Buf). b.pos) (sym w.1)
              | inr w ↦ absurd (w.0 e)
            ],
          )
    ]

-- A reader whose read event is not late has parsed all that it has, with its fields in order for the state
-- of the parser. A request line that is accepted where `recv` returns the rest of it at once comes in
-- pieces none of which is empty, each as the loop asks for it. The method was read before, or the line
-- begins with the first piece, which has four bytes at least with a G at their head; and the buffer has
-- room for the pieces and two bytes more. Then the loop ends, it goes on with the headers or, if there is
-- no memory for their list, closes, and the request and the position are those of the parse of the
-- whole.
pub process_request_line-whole :
    (listed : Bool) (pieces : List Bytes) (s : Reader)
    → s.rev_timedout ≡ false
    → IsAwaiting pieces s
    → AllSome pieces
    → (whole pieces s).code ≡ ok
    → (t : Reader) × (process_request_line listed (map arrives pieces) s ≡ line_read listed t)
      × (t.r ≡ (whole pieces s).request)
      × (t.header_in.pos ≡ (whole pieces s).buf.pos)
unfolding process_request_line
process_request_line-whole listed pieces s o h a e =
    let (t, g, q, p) = line_lem listed pieces s h a e in (t, if_false _ o ∙ g, q, p)
