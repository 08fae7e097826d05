-- ===== src/Tests/RequestLine.antt =====
-- A request line in memory, whole, in two pieces, and cut in the middle of its method.
use nginx_comment.Common.{
  ◌-◌, ◌<◌, ◌≡◌, refl, ap, ◌==◌, if◌then◌else◌, arith, get_or, Bytes, Ptr, Mem, At, codes,
}
use nginx_comment.Http.Request.{ok, invalid_method, Buf, created, cleared}
use nginx_comment.Http.RequestLine.{finish, step_in, state_at, parse_request_line}
use nginx_comment.Common.Scan.{loop, scan}
use nginx_comment.Http.RequestLine.Complete.{request_line, parse_request_line_complete}
use nginx_comment.Http.RequestLine.Fields.{Kept, created-InProgress, parse_request_line_keeps}
use nginx_comment.Http.RequestLine.Resume.{Agrees, parse_request_line_resumes}
use nginx_comment.Http.RequestLine.Window.{parse_request_line_over_reads}

abbrev pub uri : Bytes
uri = codes "ws?id=7"

-- The line from address 8 on.
abbrev pub mem : Mem
mem p = get_or (request_line uri) (p - 8) 0

abbrev whole : Buf
whole = record { pos = 8; last = 40 }

pub line-At : At mem 8 (request_line uri)
line-At = omega arith

parse_request_line_complete_example : (parse_request_line mem created cleared whole).code ≡ ok
parse_request_line_complete_example =
    ap (λ x. x.code)
      (parse_request_line_complete mem uri created cleared whole refl line-At (omega arith)
        (omega arith))

parse_request_line_keeps_example :
    Kept
      (parse_request_line mem created cleared whole).code
      (parse_request_line mem created cleared whole)
parse_request_line_keeps_example =
    parse_request_line_keeps mem created cleared whole
      (created-InProgress whole (omega arith) (omega arith))

abbrev piece : Buf
piece = record { pos = 8; last = 18 }

parse_request_line_resumes_example : Agrees (parse_request_line mem created cleared whole) (
    parse_request_line mem
      (parse_request_line mem created cleared piece).request
      (parse_request_line mem created cleared piece).saved
      (record (parse_request_line mem created cleared piece).buf { last = 40 }))
unfolding parse_request_line finish scan loop step_in state_at
parse_request_line_resumes_example =
    parse_request_line_resumes mem created cleared piece 40 (omega arith) refl

-- The same line, with something else behind its end.
abbrev other_mem : Mem
other_mem p = if p == 50 then 1 else mem p

same_before : (q : Ptr) → q < 42 → mem q ≡ other_mem q
same_before q h = ground arith

abbrev two_bytes : Mem
two_bytes p = get_or (codes "GE") (p - 8) 0

parse_request_line_over_reads_example :
    (parse_request_line two_bytes created cleared (record { pos = 8; last = 10 })).code
    ≡ invalid_method
parse_request_line_over_reads_example =
    parse_request_line_over_reads two_bytes created cleared (record { pos = 8; last = 10 }) refl
      refl refl refl
