-- ===== src/Http/HeaderLine.antt =====
-- demo/src/http/ngx_http_parse.c: `ngx_http_parse_header_line`, with the hash of
-- demo/src/core/ngx_hash.h.
pub mod Steps
pub mod Resume
pub mod Fields
pub mod Name
pub mod Read
pub mod Complete
use nginx_comment.Common.{
  ℕ, zero, suc, ◌+◌, ◌-◌, ◌*◌, ◌%◌, ◌^◌, Bool, true, false, not, ◌&&◌, ◌||◌, leb, ◌==◌,
  if◌then◌else◌, Mem, Ptr, set,
}
use nginx_comment.Common.Scan.{Round, next, stop, scan}
use nginx_comment.Http.Request.{
  Code, ok, again, header_done, invalid_header, Buf, Request, Saved, Reply, cr, lf, lc_header_len,
}

-- The enumeration `state`; `other k` is the number 8 + k, which no case names.
pub data HeaderState : Type 0 where
  start name space_before_value value space_after_value ignore_line : HeaderState
  almost_done header_almost_done : HeaderState
  other : ℕ → HeaderState

-- The next number of the enumeration.
abbrev pub succeeding : HeaderState → HeaderState
succeeding start = name
succeeding name = space_before_value
succeeding space_before_value = value
succeeding value = space_after_value
succeeding space_after_value = ignore_line
succeeding ignore_line = almost_done
succeeding almost_done = header_almost_done
succeeding header_almost_done = other 0
succeeding (other k) = other (suc k)

-- `state = r->state`
unfoldable pub state_at : ℕ → HeaderState
state_at zero = start
state_at (suc n) = succeeding (state_at n)

-- `r->state = state`
unfoldable pub index_of : HeaderState → ℕ
index_of start = 0
index_of name = 1
index_of space_before_value = 2
index_of value = 3
index_of space_after_value = 4
index_of ignore_line = 5
index_of almost_done = 6
index_of header_almost_done = 7
index_of (other zero) = 8
index_of (other (suc k)) = suc (index_of (other k))

-- The loop's variables: `state`, the request, `hash` and `i`.
pub record Machine : Type 0 where
  pub state : HeaderState
  pub request : Request
  pub hash : ℕ
  pub i : ℕ

-- The ways out of the loop: `goto done`, `goto header_done`, `return`.
pub data Exit : Type 0 where
  done : Machine → Ptr → Exit
  done_all : Machine → Ptr → Exit
  fail : Machine → Exit

-- The table `lowcase`: letters in lower case, digits and the dash, and 0 for all else.
unfoldable pub lowcase : ℕ → ℕ
lowcase ch =
    if ch == b'-' || (leb b'0' ch && leb ch b'9') || (leb b'a' ch && leb ch b'z')
    then ch
    else if leb b'A' ch && leb ch b'Z'
    then ch + 32
    else 0

-- `ngx_hash`, in 64 bits.
unfoldable pub hash_step : ℕ → ℕ → ℕ
hash_step key c = (key * 31 + c) % 2 ^ 64

abbrev pub go : HeaderState → Machine → Ptr → Round Machine Exit
go s m p = next (record m { state = s }) p

-- The first byte of a name begins the hash.
abbrev pub begin_name : Machine → ℕ → Machine
begin_name m c = record m {
  request = record (m.request) { lowcase_header = set (m.request.lowcase_header) 0 c };
  hash = hash_step 0 c;
  i = 1;
}

-- `hash = ngx_hash(hash, c); r->lowcase_header[i++] = c; i &= (NGX_HTTP_LC_HEADER_LEN - 1);`
abbrev pub add_to_name : Machine → ℕ → Machine
add_to_name m c = record m {
  request = record (m.request) { lowcase_header = set (m.request.lowcase_header) m.i c };
  hash = hash_step m.hash c;
  i = (m.i + 1) % lc_header_len;
}

abbrev pub spoil : Machine → Machine
spoil m = record m { request = record (m.request) { invalid_header = true } }

-- case sw_start
unfoldable pub step_start : Bool → Mem → Machine → Ptr → Round Machine Exit
step_start allow_underscores mem m0 p =
    let ch = mem p in
    let m = record m0 {
      request = record (m0.request) { header_name_start = p; invalid_header = false };
    } in
    let at_end = record m { request = record (m.request) { header_end = p } } in
    if ch == cr
    then go header_almost_done at_end p
    else if ch == lf
    then stop (done_all at_end p)
    else if not (lowcase ch == 0)
    then go name (begin_name m (lowcase ch)) p
    else if ch == b'_'
    then go name (if allow_underscores then begin_name m ch else spoil m) p
    else if ch == 0
    then stop (fail m)
    else go name (spoil m) p

-- case sw_name
unfoldable pub step_name : Bool → Mem → Machine → Ptr → Round Machine Exit
step_name allow_underscores mem m p =
    let ch = mem p in
    let named = record m { request = record (m.request) { header_name_end = p } } in
    let empty = record m {
      request = record (m.request) { header_name_end = p; header_start = p; header_end = p };
    } in
    if not (lowcase ch == 0)
    then go name (add_to_name m (lowcase ch)) p
    else if ch == b'_'
    then go name (if allow_underscores then add_to_name m ch else spoil m) p
    else if ch == b':'
    then go space_before_value named p
    else if ch == cr
    then go almost_done empty p
    else if ch == lf
    then stop (done empty p)
    else if ch == 0
    then stop (fail m)
    else go name (spoil m) p

-- case sw_space_before_value
unfoldable pub step_space_before : Mem → Machine → Ptr → Round Machine Exit
step_space_before mem m p =
    let ch = mem p in
    let empty = record m { request = record (m.request) { header_start = p; header_end = p } } in
    if ch == b' '
    then go space_before_value m p
    else if ch == cr
    then go almost_done empty p
    else if ch == lf
    then stop (done empty p)
    else if ch == 0
    then stop (fail m)
    else go value (record m { request = record (m.request) { header_start = p } }) p

-- case sw_value
unfoldable pub step_value : Mem → Machine → Ptr → Round Machine Exit
step_value mem m p =
    let ch = mem p in
    let ended = record m { request = record (m.request) { header_end = p } } in
    if ch == b' '
    then go space_after_value ended p
    else if ch == cr
    then go almost_done ended p
    else if ch == lf
    then stop (done ended p)
    else if ch == 0
    then stop (fail m)
    else go value m p

-- case sw_space_after_value
unfoldable pub step_space_after : Mem → Machine → Ptr → Round Machine Exit
step_space_after mem m p =
    let ch = mem p in
    if ch == b' '
    then go space_after_value m p
    else if ch == cr
    then go almost_done m p
    else if ch == lf
    then stop (done m p)
    else if ch == 0
    then stop (fail m)
    else go value m p

-- One round of the switch; the flag is `allow_underscores`.
unfoldable pub step_in : HeaderState → Bool → Mem → Machine → Ptr → Round Machine Exit
unfolding step_start step_name step_space_before step_value step_space_after
step_in start u mem m p = step_start u mem m p
step_in name u mem m p = step_name u mem m p
step_in space_before_value u mem m p = step_space_before mem m p
step_in value u mem m p = step_value mem m p
step_in space_after_value u mem m p = step_space_after mem m p
step_in ignore_line u mem m p = go (if mem p == lf then start else ignore_line) m p
step_in almost_done u mem m p =
    if mem p == lf
    then stop (done m p)
    else if mem p == cr
    then go almost_done m p
    else stop (fail m)
step_in header_almost_done u mem m p = if mem p == lf then stop (done_all m p) else stop (fail m)
step_in (other k) u mem m p = go (other k) m p

abbrev pub step : Bool → Mem → Machine → Ptr → Round Machine Exit
step u mem m p = step_in m.state u mem m p

-- What stands behind the loop, with its three labels.
unfoldable pub finish : Saved → Buf → Round Machine Exit → Reply
finish v b (next m p) = record {
  code = again;
  saved = record { state = index_of m.state; header_hash = m.hash; lowcase_index = m.i };
  request = m.request;
  buf = record b { pos = p };
}
finish v b (stop (fail m)) = record {
  code = invalid_header;
  saved = v;
  request = m.request;
  buf = b;
}
finish v b (stop (done m p)) = record {
  code = ok;
  saved = record { state = 0; header_hash = m.hash; lowcase_index = m.i };
  request = m.request;
  buf = record b { pos = p + 1 };
}
finish v b (stop (done_all m p)) = record {
  code = header_done;
  saved = record v { state = 0 };
  request = m.request;
  buf = record b { pos = p + 1 };
}

-- The machine at the head of the function.
abbrev pub restored : Request → Saved → Machine
restored r v = record {
  state = state_at v.state;
  request = r;
  hash = v.header_hash;
  i = v.lowcase_index;
}

unfoldable pub parse_header_line : Bool → Mem → Request → Saved → Buf → Reply
parse_header_line u mem r v b = finish v b (scan (step u mem) b.last (restored r v) b.pos)
