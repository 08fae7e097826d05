-- ===== src/Http/HeaderLoop/Taken.antt =====
-- One header line in the loop, where there is memory.
use mathlib.Core.Path.{subst}
use nginx_comment.Common.{
  ℕ, zero, suc, ◌+◌, ◌-◌, ◌≤◌, ◌<◌, ◌≡◌, ◌⊎◌, ◌∙◌, refl, sym, ap, Bool, true, false, some, [], ◌∷◌,
  ◌++◌, ◌==◌, length, take, length-take, if_true, if_false, Bool-cases, inl, inr, arith, Mem, Ptr,
  Bytes, At,
}
use nginx_comment.Http.Request.{Request, Saved, Reply}
use nginx_comment.Http.HeaderLine.{parse_header_line}
use nginx_comment.Http.HeaderLine.Complete.{LineRead}
use nginx_comment.Http.Reading.{Input, replied}
use nginx_comment.Http.Headers.{poke, tolower, strlow, terminate, lower_key, look, take_header}
use nginx_comment.Http.Headers.Key.{poke-At, write_at-spares}
use nginx_comment.Http.HeaderLoop.{
  Turn, Header, HeaderReader, Stage, counted, element, after_take, line_taken, after_line, parsed,
}
use nginx_comment.Http.HeaderLoop.Block.{HeaderText, header_at}

strlow-spares :
    (n dst src : ℕ) (mem : Mem) (q : Ptr) (bs : Bytes)
    → (dst + n ≤ q) ⊎ (q + length bs ≤ dst)
    → At mem q bs
    → At (strlow n dst src mem) q bs
unfolding strlow
strlow-spares zero dst src mem q bs o h = h
strlow-spares (suc n) dst src mem q bs o h =
    strlow-spares n (dst + 1) (src + 1) (poke dst (tolower (mem src)) mem) q bs (ground arith)
      (poke-At mem dst (tolower (mem src)) q bs (ground arith) h)

-- The writes for a header spare what lies behind its line and apart from the memory for its name.
lower_key-spares :
    (r : Request) (v : Saved) (a : Ptr) (mem : Mem) (q : Ptr) (bs : Bytes)
    → (a + (r.header_name_end - r.header_name_start) ≤ q) ⊎ (q + length bs ≤ a)
    → r.header_name_start + (r.header_name_end - r.header_name_start) < q
    → r.header_start + (r.header_end - r.header_start) < q
    → At mem q bs
    → At (lower_key r v a (terminate r mem)) q bs
unfolding lower_key
lower_key-spares r v a mem q bs o n e h =
    let len = r.header_name_end - r.header_name_start in
    let m1 = poke (r.header_name_start + len) 0 mem in
    let m2 = terminate r mem in
    let k : At m2 q bs =
      poke-At m1 (r.header_start + (r.header_end - r.header_start)) 0 q bs (inl e)
        (poke-At mem (r.header_name_start + len) 0 q bs (inl n) h) in
    elim (Bool-cases (len == v.lowcase_index)) [
      | inl t ↦
          subst (λ m. At m q bs) (sym (if_true _ t))
            (write_at-spares m2 a (take len r.lowcase_header) q bs (shorter len o) k)
      | inr t ↦
          subst (λ m. At m q bs) (sym (if_false _ t))
            (strlow-spares len a r.header_name_start m2 q bs o k)
    ]
  where
    shorter :
        (len : ℕ)
        → (a + len ≤ q) ⊎ (q + length bs ≤ a)
        → (a + length (take len r.lowcase_header) ≤ q) ⊎ (q + length bs ≤ a)
    shorter len (inl x) = inl (omega (arith, x, length-take len r.lowcase_header))
    shorter len (inr y) = inr y

-- The turn in which the header is given memory at `a`.
abbrev pub taking : Input → Ptr → Turn
taking input a = record { input = input; pushed = true; memory = some a }

-- The reader behind a header.
abbrev pub behind : HeaderReader → Reply → Ptr → HeaderReader
behind h x a =
    let s = counted (replied x h.reader) in
    let mem = lower_key x.request x.saved a (terminate x.request s.mem) in
    record h {
      reader = record s { mem = mem };
      wish = look mem a x.request.header_start h.wish;
      headers = h.headers ++ element x.request x.saved a ∷ [];
    }

header_eq :
    (a b : Header)
    → a.hash ≡ b.hash
    → a.key_len ≡ b.key_len
    → a.key_data ≡ b.key_data
    → a.value_len ≡ b.value_len
    → a.value_data ≡ b.value_data
    → a.lowcase_key ≡ b.lowcase_key
    → a ≡ b
header_eq a b h1 h2 h3 h4 h5 h6 = ground arith

module _ (loop : Bool → HeaderReader → Stage) (input : Input) (a : Ptr) (h : HeaderReader)
    (l : HeaderText) (p : Ptr) where
  abbrev pub line_reply : Reply
  line_reply = parse_header_line true h.reader.mem h.reader.r h.reader.saved h.reader.header_in

  abbrev IsRead : Type 0
  IsRead = LineRead line_reply p (l.first ∷ l.more) l.gap (l.value_first ∷ l.value_more)

  pub line_step : IsRead → parsed loop (taking input a) h ≡ loop false (behind h line_reply a)
  unfolding after_line line_taken after_take take_header
  line_step x =
      ap
        (λ c.
          after_line loop (taking input a) c (record h { reader = replied line_reply h.reader }))
        x.code
      ∙ if_false _ x.valid

  pub line_element : IsRead → element line_reply.request line_reply.saved a ≡ header_at l p a
  line_element x =
      header_eq (element line_reply.request line_reply.saved a) (header_at l p a) x.hash
        (omega (arith, x.name_end, x.name_start)) x.name_start
        (omega (arith, x.value_end, x.value_start)) x.value_start refl

  -- Memory behind the line is as before.
  pub line_spares :
      (bs : Bytes)
      → IsRead
      → (a + length (l.first ∷ l.more) ≤ line_reply.buf.pos) ⊎ (line_reply.buf.pos + length bs ≤ a)
      → At h.reader.mem line_reply.buf.pos bs
      → At (behind h line_reply a).reader.mem line_reply.buf.pos bs
  line_spares bs x o k =
      lower_key-spares line_reply.request line_reply.saved a h.reader.mem line_reply.buf.pos bs
        (ground (arith, x.name_end, x.name_start))
        (omega (arith, x.name_end, x.name_start, x.behind))
        (omega (arith, x.value_end, x.value_start, x.behind)) k
