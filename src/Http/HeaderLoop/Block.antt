-- ===== src/Http/HeaderLoop/Block.antt =====
-- The headers of a request in memory, and what the parser says of the empty line behind them.
use nginx_comment.Common.{
  ℕ, ◌+◌, ◌≤◌, ◌≡◌, ◌≢◌, ◌∙◌, refl, Bool, false, List, [], ◌∷◌, ◌++◌, map, length, arith, Mem, Ptr,
  Bytes, At,
}
use nginx_comment.Common.Scan.{stop, scan, scan_stop}
use nginx_comment.Http.Request.{header_done, Buf, Request, Saved, Reply, cr, lf}
use nginx_comment.Http.HeaderLine.{
  start, header_almost_done, lowcase, state_at, Machine, done_all, step_in, step, restored, finish,
  parse_header_line,
}
use nginx_comment.Http.HeaderLine.Name.{NameBytes, hash_from}
use nginx_comment.Http.HeaderLine.Read.{ValueBytes, ends_in_space, in_state, read}
use nginx_comment.Http.HeaderLine.Steps.{step_advances}
use nginx_comment.Http.HeaderLine.Complete.{header_line}
use nginx_comment.Http.HeaderLoop.{Header}

-- A line: a name, how many spaces stand before the value, and a value.
pub record HeaderText : Type 0 where
  pub first : ℕ
  pub more : Bytes
  pub gap : ℕ
  pub value_first : ℕ
  pub value_more : Bytes

abbrev pub text : HeaderText → Bytes
text l = header_line (l.first ∷ l.more) l.gap (l.value_first ∷ l.value_more)

-- The name has letters, digits and dashes, and the value neither begins nor ends in a space.
pub record IsHeaderText (l : HeaderText) : Type 0 where
  pub name : NameBytes (l.first ∷ l.more)
  pub value_start : l.value_first ≢ b' '
  pub value : ValueBytes (l.value_first ∷ l.value_more)
  pub value_end : ends_in_space false l.value_more ≡ false

-- All lines, and the empty one.
abbrev pub block : List HeaderText → Bytes
block [] = cr ∷ lf ∷ []
block (l ∷ lines) = text l ++ block lines

abbrev pub All : List HeaderText → Type 0
All [] = Unit
All (l ∷ lines) = IsHeaderText l × All lines

abbrev pub text_length : HeaderText → ℕ
text_length l = length l.more + l.gap + length l.value_more + 5

-- The element for a line that begins at `p`.
abbrev pub header_at : HeaderText → Ptr → Ptr → Header
header_at l p lowcase_key = record {
  hash = hash_from 0 (map lowcase (l.first ∷ l.more));
  key_len = length (l.first ∷ l.more);
  key_data = p;
  value_len = length (l.value_first ∷ l.value_more);
  value_data = p + length (l.first ∷ l.more) + 1 + l.gap;
  lowcase_key = lowcase_key;
}

-- What is known of the empty line.
pub record EmptyRead (x : Reply) (p : Ptr) : Type 0 where
  pub code : x.code ≡ header_done
  pub behind : x.buf.pos ≡ p + 2

-- The machine behind the carriage return at `p`.
abbrev at_return : Machine → Ptr → Machine
at_return m p = record m {
  request = record m.request { header_name_start = p; invalid_header = false; header_end = p };
}

read_empty :
    (u : Bool) (mem : Mem) (last : ℕ) (m : Machine) (p : Ptr)
    → At mem p (cr ∷ lf ∷ [])
    → p + 2 ≤ last
    → scan (step u mem) last (in_state start m) p
      ≡ stop (done_all (in_state header_almost_done (at_return m p)) (p + 1))
read_empty u mem last m p a h =
    read u mem last start header_almost_done m (at_return m p) p (omega arith)
      (unfold step_in in rw a.0 refl)
    ∙ scan_stop (step u mem) (step_advances u mem) last
        (in_state header_almost_done (at_return m p)) (p + 1)
        (done_all (in_state header_almost_done (at_return m p)) (p + 1)) (omega arith)
        (unfold step_in in rw a.1.0 refl)

pub parse_header_line_empty :
    (u : Bool) (mem : Mem) (r : Request) (v : Saved) (b : Buf)
    → v.state ≡ 0
    → At mem b.pos (cr ∷ lf ∷ [])
    → b.pos + 2 ≤ b.last
    → EmptyRead (parse_header_line u mem r v b) b.pos
unfolding parse_header_line state_at finish
parse_header_line_empty u mem r v b s a h =
    rw (s, read_empty u mem b.last (restored r v) b.pos a h)
      (record { code = refl; behind = omega arith })
