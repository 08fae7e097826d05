-- ===== src/Tests/Headers.antt =====
-- The header of a handshake in memory.
use nginx_comment.Common.{◌-◌, refl, ◌∷◌, [], ◌++◌, inr, arith, get_or, Bytes, Mem, codes}
use nginx_comment.Http.Request.{Request, Saved, created}
use nginx_comment.Http.Headers.{key_name}
use nginx_comment.Http.Headers.Key.{IsHeader}

abbrev value : Bytes
value = codes "dGhlIHNh"

-- "Sec-WebSocket-Key: dGhlIHNh" from address 8 on.
abbrev mem : Mem
mem p = get_or (codes "Sec-WebSocket-Key: dGhlIHNh") (p - 8) 13

abbrev r : Request
r = record created {
  header_name_start = 8;
  header_name_end = 25;
  header_start = 27;
  header_end = 35;
  lowcase_header = key_name ++ 0 ∷ [];
}

abbrev v : Saved
v = record { state = 0; header_hash = 0; lowcase_index = 17 }

key-IsHeader : IsHeader key_name value 100 r v mem
key-IsHeader = record {
  value_there = omega arith;
  value_end = refl;
  name_len = refl;
  in_order = omega arith;
  counted = refl;
  lowered = refl;
  apart = inr (omega arith);
}
