-- ===== src/Http/RequestLine/Complete.antt =====
-- A well-formed request line is accepted, with every field in its place.
use nginx_comment.Common.{
  ℕ, ◌+◌, ◌≤◌, ◌<◌, ◌≡◌, ◌≢◌, ap, ◌∙◌, [], ◌∷◌, ◌++◌, arith, length, Mem, Ptr, Bytes, At, At-append,
  codes,
}
use nginx_comment.Common.Scan.{Round, stop, scan, scan_next, scan_stop}
use nginx_comment.Http.Request.{ok, Buf, Request, Saved, http_get, cr, lf}
use nginx_comment.Http.RequestLine.{
  LineState, start, method, spaces_before_uri, after_slash_in_uri, check_uri_http_09, http_h,
  http_ht, http_htt, http_http, first_major_digit, major_digit, first_minor_digit, minor_digit,
  almost_done, state_at, Machine, done, step_in, step, accept, finish, parse_request_line,
}
use nginx_comment.Http.RequestLine.Steps.{step_advances}

-- The bytes of a uri behind its first slash.
abbrev pub UriBytes : Bytes → Type 0
UriBytes [] = Unit
UriBytes (c ∷ cs) = (c ≢ b' ') × (c ≢ cr) × (c ≢ lf) × (c ≢ 0) × UriBytes cs

abbrev pub request_line : Bytes → Bytes
request_line us = codes "GET /" ++ us ++ codes " HTTP/1.1\r\n"

abbrev at : LineState → Request → Machine
at s r = record { state = s; request = r }

-- The fields behind "GET /" and " HTTP/1.1\r\n", each at `p`.
abbrev head_read : Request → Ptr → Request
head_read r p = record r {
  method = http_get;
  request_start = p;
  method_end = p + 3;
  uri_start = p + 4;
}

abbrev version_read : Request → Ptr → Request
version_read r p = record r {
  uri_end = p;
  http_protocol = p + 1;
  http_major = 1;
  http_minor = 1;
  request_end = p + 9;
}

module _ (mem : Mem) (last : ℕ) where
  -- One byte that leaves `p` alone.
  read :
      (s s' : LineState) (r r' : Request) (p : Ptr)
      → p < last
      → step_in s mem r p ≡ Round.next (at s' r') p
      → scan (step mem) last (at s r) p ≡ scan (step mem) last (at s' r') (p + 1)
  read s s' r r' p h e = scan_next (step mem) (step_advances mem) last (at s r) (at s' r') p p h e

  read_uri :
      (us : Bytes) (r : Request) (p : Ptr)
      → At mem p us
      → UriBytes us
      → p + length us ≤ last
      → scan (step mem) last (at after_slash_in_uri r) p
        ≡ scan (step mem) last (at after_slash_in_uri r) (p + length us)
  read_uri [] r p a u h = ap (scan (step mem) last (at after_slash_in_uri r)) (omega arith)
  read_uri (c ∷ us) r p a u h =
      read after_slash_in_uri after_slash_in_uri r r p (omega arith)
        (unfold step_in in ground arith)
      ∙ read_uri us r (p + 1) a.1 u.4 (omega arith)
      ∙ ap (scan (step mem) last (at after_slash_in_uri r)) (omega arith)

  read_version :
      (r : Request) (p : Ptr)
      → At mem p (codes " HTTP/1.1\r\n")
      → p + 11 ≤ last
      → scan (step mem) last (at after_slash_in_uri r) p ≡ stop (done (version_read r p) (p + 10))
  read_version r p a h =
      let r1 = record r { uri_end = p } in
      let r2 = record r { uri_end = p; http_protocol = p + 1 } in
      let r3 = record r { uri_end = p; http_protocol = p + 1; http_major = 1 } in
      let r4 = record r { uri_end = p; http_protocol = p + 1; http_major = 1; http_minor = 1 } in
      read after_slash_in_uri check_uri_http_09 r r1 p (omega arith)
        (unfold step_in in ground arith)
      ∙ read check_uri_http_09 http_h r1 r2 (p + 1) (omega arith) (unfold step_in in ground arith)
      ∙ read http_h http_ht r2 r2 (p + 1 + 1) (omega arith) (unfold step_in in ground arith)
      ∙ read http_ht http_htt r2 r2 (p + 1 + 1 + 1) (omega arith) (unfold step_in in ground arith)
      ∙ read http_htt http_http r2 r2 (p + 1 + 1 + 1 + 1) (omega arith)
          (unfold step_in in ground arith)
      ∙ read http_http first_major_digit r2 r2 (p + 1 + 1 + 1 + 1 + 1) (omega arith)
          (unfold step_in in ground arith)
      ∙ read first_major_digit major_digit r2 r3 (p + 1 + 1 + 1 + 1 + 1 + 1) (omega arith)
          (unfold step_in in ground arith)
      ∙ read major_digit first_minor_digit r3 r3 (p + 1 + 1 + 1 + 1 + 1 + 1 + 1) (omega arith)
          (unfold step_in in ground arith)
      ∙ read first_minor_digit minor_digit r3 r4 (p + 1 + 1 + 1 + 1 + 1 + 1 + 1 + 1) (omega arith)
          (unfold step_in in ground arith)
      ∙ read minor_digit almost_done r4 r4 (p + 1 + 1 + 1 + 1 + 1 + 1 + 1 + 1 + 1) (omega arith)
          (unfold step_in in ground arith)
      ∙ scan_stop (step mem) (step_advances mem) last (at almost_done r4)
          (p + 1 + 1 + 1 + 1 + 1 + 1 + 1 + 1 + 1 + 1) (done (version_read r p) (p + 10))
          (omega arith) (unfold step_in in ground arith)

  read_head :
      (r : Request) (p : Ptr)
      → At mem p (codes "GET /")
      → p + 5 ≤ last
      → scan (step mem) last (at start r) p
        ≡ scan (step mem) last (at after_slash_in_uri (head_read r p)) (p + 5)
  read_head r p a h =
      let r1 = record r { request_start = p } in
      let r2 = record r { request_start = p; method = http_get; method_end = p + 3 } in
      read start method r r1 p (omega arith) (unfold step_in in ground arith)
      ∙ scan_next (step mem) (step_advances mem) last (at method r1) (at spaces_before_uri r2)
          (p + 1) (p + 2) (omega arith) (unfold step_in in ground arith)
      ∙ read spaces_before_uri spaces_before_uri r2 r2 (p + 2 + 1) (omega arith)
          (unfold step_in in ground arith)
      ∙ read spaces_before_uri after_slash_in_uri r2 (head_read r p) (p + 2 + 1 + 1) (omega arith)
          (unfold step_in in ground arith)
      ∙ ap (scan (step mem) last (at after_slash_in_uri (head_read r p))) (omega arith)

  read_line :
      (us : Bytes) (r : Request) (p : Ptr)
      → At mem p (request_line us)
      → UriBytes us
      → p + length us + 16 ≤ last
      → scan (step mem) last (at start r) p
        ≡ stop (done (version_read (head_read r p) (p + 5 + length us)) (p + 15 + length us))
  read_line us r p a u h =
      let (x, y) = At-append mem p (codes "GET /") (us ++ codes " HTTP/1.1\r\n") a in
      let (z, w) = At-append mem (p + 5) us (codes " HTTP/1.1\r\n") y in
      read_head r p x (omega arith)
      ∙ read_uri us (head_read r p) (p + 5) z u (omega arith)
      ∙ read_version (head_read r p) (p + 5 + length us) w (omega arith)
      ∙ ap (λ q. stop (done (version_read (head_read r p) (p + 5 + length us)) q)) (omega arith)

-- Where a fresh request's buffer holds "GET /", any uri bytes, and " HTTP/1.1\r\n", with anything
-- behind, the line is accepted as HTTP/1.1, the position stands behind it, and the method's end,
-- the uri's two ends, the protocol and the end of the line are where the text has them.
pub parse_request_line_complete :
    (mem : Mem) (us : Bytes) (r : Request) (v : Saved) (b : Buf)
    → v.state ≡ 0
    → At mem b.pos (request_line us)
    → UriBytes us
    → b.pos + length us + 16 ≤ b.last
    → parse_request_line mem r v b ≡ record {
      code = ok;
      saved = record v { state = 0 };
      request = record r {
        method = http_get;
        http_version = 1001;
        request_start = b.pos;
        method_end = b.pos + 3;
        uri_start = b.pos + 4;
        uri_end = b.pos + 5 + length us;
        http_protocol = b.pos + 6 + length us;
        http_major = 1;
        http_minor = 1;
        request_end = b.pos + 14 + length us;
      };
      buf = record b { pos = b.pos + 16 + length us };
    }
unfolding parse_request_line state_at finish accept
parse_request_line_complete mem us r v b s a u h =
    rw (s, read_line mem b.last us r b.pos a u h) (ground arith)
