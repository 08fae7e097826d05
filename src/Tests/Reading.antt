-- ===== src/Tests/Reading.antt =====
-- A request line that arrives in two pieces.
use nginx_comment.Common.{
  ◌≡◌, refl, ap, false, true, List, [], ◌∷◌, take, drop, map, inr, arith, Bytes,
}
use nginx_comment.Http.Request.{created, cleared}
use nginx_comment.Http.RequestLine.{state_at}
use nginx_comment.Http.RequestLine.Complete.{request_line, parse_request_line_complete}
use nginx_comment.Http.RequestLine.Fields.{created-InProgress}
use nginx_comment.Http.Reading.{Reader, write_at, line_read, process_request_line}
use nginx_comment.Http.Headers.Key.{write_at-At}
use nginx_comment.Http.Reading.Pieces.{arrives, whole, IsAwaiting, process_request_line-whole}
use nginx_comment.Tests.Response.{request}
use nginx_comment.Tests.RequestLine.{uri}

abbrev pieces : List Bytes
pieces = take 10 (request_line uri) ∷ drop 10 (request_line uri) ∷ []

abbrev reader : Reader
reader = record {
  mem = λ p. 0;
  header_in = record { pos = 8; last = 8 };
  end = 2056;
  r = created;
  saved = cleared;
  rev_timedout = false;
  request_line_len = 0;
  request_length = 0;
  http_protocol_len = 0;
  server = request [];
}

reader-IsAwaiting : IsAwaiting pieces reader
unfolding state_at
reader-IsAwaiting = record {
  progress = created-InProgress (record { pos = 8; last = 8 }) (omega arith) (omega arith);
  parsed = omega arith;
  begins = inr (refl, refl, refl);
  room = omega arith;
}

process_request_line-whole_example :
    (t : Reader) × (process_request_line true (map arrives pieces) reader ≡ line_read true t)
    × (t.r ≡ (whole pieces reader).request)
    × (t.header_in.pos ≡ (whole pieces reader).buf.pos)
process_request_line-whole_example =
    process_request_line-whole true pieces reader refl reader-IsAwaiting
      (omega arith, (omega arith, tt))
      (ap (λ x. x.code)
        (parse_request_line_complete (write_at 8 (request_line uri) (λ p. 0)) uri created cleared
          (record { pos = 8; last = 31 }) refl (write_at-At (λ p. 0) 8 (request_line uri))
          (omega arith) (omega arith)))
