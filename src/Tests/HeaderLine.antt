-- ===== src/Tests/HeaderLine.antt =====
-- The header line "Upgrade:  web socket", whole, and in two pieces.
use nginx_comment.Common.{◌-◌, refl, true, false, arith, get_or, Bytes, Mem, At, codes}
use nginx_comment.Common.Scan.{loop, scan}
use nginx_comment.Http.Request.{Buf, created, cleared}
use nginx_comment.Http.HeaderLine.{
  finish, step_in, state_at, lowcase, step_start, step_name, parse_header_line,
}
use nginx_comment.Http.HeaderLine.Name.{NameBytes}
use nginx_comment.Http.HeaderLine.Read.{ValueBytes}
use nginx_comment.Http.HeaderLine.Complete.{header_line, LineRead, parse_header_line_complete}
use nginx_comment.Http.HeaderLine.Fields.{Kept, created-InProgress, parse_header_line_keeps}
use nginx_comment.Http.HeaderLine.Resume.{Agrees, parse_header_line_resumes}

abbrev name : Bytes
name = codes "Upgrade"

abbrev text : Bytes
text = codes "web socket"

-- The line from address 8 on.
abbrev mem : Mem
mem p = get_or (header_line name 2 text) (p - 8) 0

abbrev whole : Buf
whole = record { pos = 8; last = 40 }

line-At : At mem 8 (header_line name 2 text)
line-At = omega arith

name_bytes : NameBytes name
unfolding lowcase
name_bytes = omega arith

text_bytes : ValueBytes text
text_bytes = omega arith

parse_header_line_complete_example :
    LineRead (parse_header_line false mem created cleared whole) 8 name 2 text
parse_header_line_complete_example =
    parse_header_line_complete false mem created cleared whole b'U' (codes "pgrade") 2 b'w'
      (codes "eb socket") refl line-At name_bytes (omega arith) text_bytes refl (omega arith)

parse_header_line_keeps_example :
    Kept
      (parse_header_line true mem created cleared whole).code
      (parse_header_line true mem created cleared whole)
parse_header_line_keeps_example =
    parse_header_line_keeps true mem created cleared whole (created-InProgress whole (omega arith))

abbrev piece : Buf
piece = record { pos = 8; last = 12 }

parse_header_line_resumes_example : Agrees (parse_header_line true mem created cleared whole) (
    parse_header_line true mem
      (parse_header_line true mem created cleared piece).request
      (parse_header_line true mem created cleared piece).saved
      (record (parse_header_line true mem created cleared piece).buf { last = 40 }))
unfolding parse_header_line finish scan loop step_in step_start step_name lowcase state_at
parse_header_line_resumes_example =
    parse_header_line_resumes true mem created cleared piece 40 (omega arith) refl
