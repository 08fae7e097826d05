-- ===== src/Http/Headers.antt =====
-- demo/src/http/ngx_http_request.c: a header that was read, as `ngx_http_process_request_headers`
-- takes it into the request, with `ngx_strlow` of demo/src/core/ngx_string.c.
pub mod Key
use nginx_comment.Common.{
  ℕ, zero, suc, ◌+◌, ◌-◌, Bool, true, false, ◌&&◌, Option, none, some, List, [], ◌∷◌, leb, ◌==◌,
  if◌then◌else◌, take, Mem, Ptr, Bytes, codes,
}
use nginx_comment.Http.Request.{Request, Saved}
use nginx_comment.Http.Reading.{write_at}

-- `p[0] = v`
abbrev pub poke : Ptr → ℕ → Mem → Mem
poke p v mem q = if q == p then v else mem q

-- `ngx_tolower`
abbrev pub tolower : ℕ → ℕ
tolower c = if leb 65 c && leb c 90 then c + 32 else c

-- `ngx_strlow(dst, src, n)`
unfoldable pub strlow : ℕ → Ptr → Ptr → Mem → Mem
strlow zero dst src mem = mem
strlow (suc n) dst src mem = strlow n (dst + 1) (src + 1) (poke dst (tolower (mem src)) mem)

-- `ngx_strncmp(p, text, strlen(text)) == 0`
abbrev pub starts_at : Mem → Ptr → Bytes → Bool
starts_at mem p [] = true
starts_at mem p (b ∷ text) = (mem p == b) && starts_at mem (p + 1) text

abbrev pub upgrade_name : Bytes
upgrade_name = codes "upgrade"

abbrev pub websocket_value : Bytes
websocket_value = codes "websocket"

abbrev pub key_name : Bytes
key_name = codes "sec-websocket-key"

-- What the headers say of the upgrade: `r->upgrade` and `r->sec_websocket_key`, 0 for NULL.
pub record Wish : Type 0 where
  pub upgrade : Bool
  pub sec_websocket_key : Ptr

-- The two comparisons, on `h->lowcase_key` and `h->value.data`.
unfoldable pub look : Mem → Ptr → Ptr → Wish → Wish
look mem lowcase_key value w = record {
  upgrade =
      if starts_at mem lowcase_key upgrade_name && starts_at mem value websocket_value
      then true
      else w.upgrade;
  sec_websocket_key = if starts_at mem lowcase_key key_name then value else w.sec_websocket_key;
}

-- `h->lowcase_key` is filled.
unfoldable pub lower_key : Request → Saved → Ptr → Mem → Mem
unfolding strlow
lower_key r v lowcase_key mem =
    let len = r.header_name_end - r.header_name_start in
    if len == v.lowcase_index
    then write_at lowcase_key (take len (r.lowcase_header)) mem
    else strlow len lowcase_key (r.header_name_start) mem

-- The zeros behind the name and the value.
abbrev pub terminate : Request → Mem → Mem
terminate r mem =
    poke (r.header_start + (r.header_end - r.header_start)) 0
      (poke (r.header_name_start + (r.header_name_end - r.header_name_start)) 0 mem)

-- The branch for NGX_OK, where the line is not invalid: `pushed` is whether `ngx_list_push` returns an
-- element, `memory` what `ngx_pnalloc` returns for the name. None where the request is closed.
unfoldable pub take_header : Bool → Option Ptr → Request → Saved → Mem → Wish → Option (Mem × Wish)
unfolding lower_key look
take_header pushed none r v mem w = none
take_header pushed (some lowcase_key) r v mem w =
    let mem' = lower_key r v lowcase_key (terminate r mem) in
    if pushed then some (mem', look mem' lowcase_key (r.header_start) w) else none
