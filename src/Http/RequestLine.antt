-- ===== src/Http/RequestLine.antt =====
-- demo/src/http/ngx_http_parse.c: `ngx_http_parse_request_line`. Memory is total, so a read
-- behind `last`, which the method test makes, has a value here as it has there.
pub mod Steps
pub mod Resume
pub mod Window
pub mod Arrived
pub mod Complete
pub mod Fields
use nginx_comment.Common.{
  ℕ, zero, suc, ◌+◌, ◌-◌, ◌*◌, ◌%◌, ◌^◌, Bool, not, ◌&&◌, ◌||◌, ltb, ◌==◌, if◌then◌else◌, Mem, Ptr,
}
use nginx_comment.Common.Scan.{Round, next, stop, scan}
use nginx_comment.Http.Request.{
  Code, ok, again, invalid_method, invalid_request, invalid_version, Buf, Request, Saved, Reply, cr,
  lf, http_get, http_version_11,
}

-- The enumeration `state`. A number that it does not name falls through the switch: `other k`
-- is the number 15 + k.
pub data LineState : Type 0 where
  start method spaces_before_uri after_slash_in_uri check_uri_http_09 : LineState
  http_h http_ht http_htt http_http : LineState
  first_major_digit major_digit first_minor_digit minor_digit : LineState
  spaces_after_digit almost_done : LineState
  other : ℕ → LineState

-- The next number of the enumeration.
abbrev pub succeeding : LineState → LineState
succeeding start = method
succeeding method = spaces_before_uri
succeeding spaces_before_uri = after_slash_in_uri
succeeding after_slash_in_uri = check_uri_http_09
succeeding check_uri_http_09 = http_h
succeeding http_h = http_ht
succeeding http_ht = http_htt
succeeding http_htt = http_http
succeeding http_http = first_major_digit
succeeding first_major_digit = major_digit
succeeding major_digit = first_minor_digit
succeeding first_minor_digit = minor_digit
succeeding minor_digit = spaces_after_digit
succeeding spaces_after_digit = almost_done
succeeding almost_done = other 0
succeeding (other k) = other (suc k)

-- `state = r->state`
unfoldable pub state_at : ℕ → LineState
state_at zero = start
state_at (suc n) = succeeding (state_at n)

-- `r->state = state`
unfoldable pub index_of : LineState → ℕ
index_of start = 0
index_of method = 1
index_of spaces_before_uri = 2
index_of after_slash_in_uri = 3
index_of check_uri_http_09 = 4
index_of http_h = 5
index_of http_ht = 6
index_of http_htt = 7
index_of http_http = 8
index_of first_major_digit = 9
index_of major_digit = 10
index_of first_minor_digit = 11
index_of minor_digit = 12
index_of spaces_after_digit = 13
index_of almost_done = 14
index_of (other zero) = 15
index_of (other (suc k)) = suc (index_of (other k))

-- The loop's variables, and the ways out of the loop: `goto done` and `return code`.
pub record Machine : Type 0 where
  pub state : LineState
  pub request : Request

pub data Exit : Type 0 where
  done : Request → Ptr → Exit
  fail : Code → Request → Exit

abbrev pub go : LineState → Request → Ptr → Round Machine Exit
go s r p = next (record { state = s; request = r }) p

-- `ngx_str3_cmp(m, 'G', 'E', 'T', ' ')`: one little-endian load of four bytes.
abbrev pub is_get : Mem → Ptr → Bool
is_get mem m = mem m == b'G' && mem (m + 1) == b'E' && mem (m + 2) == b'T' && mem (m + 3) == b' '

abbrev not_digit : ℕ → Bool
not_digit ch = ltb ch b'0' || ltb b'9' ch

-- A bit field of 16 bits.
abbrev pub u16 : ℕ → ℕ
u16 n = n % 2 ^ 16

-- The cases that wait for one byte of "HTTP/".
abbrev pub expect : ℕ → ℕ → LineState → Request → Ptr → Round Machine Exit
expect ch c s r p = if ch == c then go s r p else stop (fail invalid_request r)

-- case sw_start
pub step_start : Mem → Request → Ptr → Round Machine Exit
step_start mem r p =
    let ch = mem p in
    let r' = record r { request_start = p } in
    if ch == cr || ch == lf
    then go start r' p
    else if not (ch == b'G')
    then stop (fail invalid_method r')
    else go method r' p

-- case sw_method: the four bytes at `m` are read whether or not they have arrived.
pub step_method : Mem → Request → Ptr → Round Machine Exit
step_method mem r p =
    if is_get mem r.request_start
    then go spaces_before_uri (record r { method_end = p + 2; method = http_get }) (p + 1)
    else stop (fail invalid_method r)

-- case sw_after_slash_in_uri
pub step_uri : Mem → Request → Ptr → Round Machine Exit
step_uri mem r p =
    let ch = mem p in
    if ch == b' '
    then go check_uri_http_09 (record r { uri_end = p }) p
    else if ch == cr
    then go almost_done (record r { uri_end = p; http_minor = 9 }) p
    else if ch == lf
    then stop (done (record r { uri_end = p; http_minor = 9 }) p)
    else if ch == 0
    then stop (fail invalid_request r)
    else go after_slash_in_uri r p

-- case sw_check_uri_http_09
pub step_http_09 : Mem → Request → Ptr → Round Machine Exit
step_http_09 mem r p =
    let ch = mem p in
    if ch == b' '
    then go check_uri_http_09 r p
    else if ch == cr
    then go almost_done (record r { http_minor = 9 }) p
    else if ch == lf
    then stop (done (record r { http_minor = 9 }) p)
    else if ch == b'H'
    then go http_h (record r { http_protocol = p }) p
    else stop (fail invalid_request r)

-- case sw_first_major_digit and case sw_major_digit
pub step_first_major : Mem → Request → Ptr → Round Machine Exit
step_first_major mem r p =
    let ch = mem p in
    let r' = record r { http_major = u16 (ch - b'0') } in
    if ltb ch b'1' || ltb b'9' ch
    then stop (fail invalid_request r)
    else if ltb 1 r'.http_major
    then stop (fail invalid_version r')
    else go major_digit r' p

pub step_major : Mem → Request → Ptr → Round Machine Exit
step_major mem r p =
    let ch = mem p in
    let r' = record r { http_major = u16 (r.http_major * 10 + (ch - b'0')) } in
    if ch == b'.'
    then go first_minor_digit r p
    else if not_digit ch
    then stop (fail invalid_request r)
    else if ltb 1 r'.http_major
    then stop (fail invalid_version r')
    else go major_digit r' p

-- case sw_first_minor_digit and case sw_minor_digit
pub step_first_minor : Mem → Request → Ptr → Round Machine Exit
step_first_minor mem r p =
    let ch = mem p in
    if not_digit ch
    then stop (fail invalid_request r)
    else go minor_digit (record r { http_minor = u16 (ch - b'0') }) p

pub step_minor : Mem → Request → Ptr → Round Machine Exit
step_minor mem r p =
    let ch = mem p in
    if ch == cr
    then go almost_done r p
    else if ch == lf
    then stop (done r p)
    else if ch == b' '
    then go spaces_after_digit r p
    else if not_digit ch
    then stop (fail invalid_request r)
    else if ltb 99 r.http_minor
    then stop (fail invalid_request r)
    else go minor_digit (record r { http_minor = u16 (r.http_minor * 10 + (ch - b'0')) }) p

-- One round of the switch.
unfoldable pub step_in : LineState → Mem → Request → Ptr → Round Machine Exit
unfolding step_start step_method step_uri step_http_09 step_first_major step_major step_first_minor
    step_minor
step_in start mem r p = step_start mem r p
step_in method mem r p = step_method mem r p
step_in spaces_before_uri mem r p =
    if mem p == b'/'
    then go after_slash_in_uri (record r { uri_start = p }) p
    else if mem p == b' '
    then go spaces_before_uri r p
    else stop (fail invalid_request r)
step_in after_slash_in_uri mem r p = step_uri mem r p
step_in check_uri_http_09 mem r p = step_http_09 mem r p
step_in http_h mem r p = expect (mem p) b'T' http_ht r p
step_in http_ht mem r p = expect (mem p) b'T' http_htt r p
step_in http_htt mem r p = expect (mem p) b'P' http_http r p
step_in http_http mem r p = expect (mem p) b'/' first_major_digit r p
step_in first_major_digit mem r p = step_first_major mem r p
step_in major_digit mem r p = step_major mem r p
step_in first_minor_digit mem r p = step_first_minor mem r p
step_in minor_digit mem r p = step_minor mem r p
step_in spaces_after_digit mem r p =
    if mem p == b' '
    then go spaces_after_digit r p
    else if mem p == cr
    then go almost_done r p
    else if mem p == lf
    then stop (done r p)
    else stop (fail invalid_request r)
step_in almost_done mem r p =
    let r' = record r { request_end = p - 1 } in
    if mem p == lf then stop (done r' p) else stop (fail invalid_request r')
step_in (other k) mem r p = go (other k) r p

abbrev pub step : Mem → Machine → Ptr → Round Machine Exit
step mem m p = step_in m.state mem m.request p

-- The code behind the label `done`, but for `r->state` and the test of the version.
unfoldable pub accept : Request → Ptr → Request
accept r p = record r {
  request_end = if r.request_end == 0 then p else r.request_end;
  http_version = r.http_major * 1000 + r.http_minor;
}

abbrev pub version_code : Request → Code
version_code r =
    if ltb r.http_version http_version_11 || not (r.method == http_get) then invalid_version else ok

-- What stands behind the loop. A `return` inside it saves neither the state nor the position.
unfoldable pub finish : Saved → Buf → Round Machine Exit → Reply
unfolding accept
finish v b (next m p) = record {
  code = again;
  saved = record v { state = index_of m.state };
  request = m.request;
  buf = record b { pos = p };
}
finish v b (stop (fail c r)) = record { code = c; saved = v; request = r; buf = b }
finish v b (stop (done r p)) = record {
  code = version_code (accept r p);
  saved = record v { state = 0 };
  request = accept r p;
  buf = record b { pos = p + 1 };
}

unfoldable pub parse_request_line : Mem → Request → Saved → Buf → Reply
parse_request_line mem r v b =
    finish v b (scan (step mem) b.last (record { state = state_at v.state; request = r }) b.pos)
