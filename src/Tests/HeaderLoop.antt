-- ===== src/Tests/HeaderLoop.antt =====
-- Two headers of a handshake that are in the buffer.
use nginx_comment.Common.{
  ◌+◌, ◌-◌, ◌≡◌, refl, false, true, none, List, [], ◌∷◌, ◌++◌, inr, get_or, arith, Mem, codes,
}
use nginx_comment.Http.Request.{created, cleared}
use nginx_comment.Http.HeaderLine.{lowcase}
use nginx_comment.Http.Reading.{Input, not_ready}
use nginx_comment.Http.HeaderLoop.{Turn, HeaderReader, complete, process_request_headers}
use nginx_comment.Http.HeaderLoop.Block.{HeaderText, IsHeaderText, block}
use nginx_comment.Http.HeaderLoop.Complete.{
  Given, lines, turns, block_length, headers_at, IsReceived, process_request_headers_lem,
}
use nginx_comment.Tests.Response.{request}

-- "Host: a"
abbrev host : HeaderText
host = record { first = b'H'; more = codes "ost"; gap = 1; value_first = b'a'; value_more = [] }

-- "Upgrade: websocket"
abbrev upgrade : HeaderText
upgrade = record {
  first = b'U';
  more = codes "pgrade";
  gap = 1;
  value_first = b'w';
  value_more = codes "ebsocket";
}

abbrev nothing : Input
nothing = record { ready = false; recv = not_ready; rearmed = true }

abbrev given : List Given
given =
    (record { line = host; input = nothing; memory = 4096 })
    ∷ (record { line = upgrade; input = nothing; memory = 4104 })
    ∷ []

-- The block of 31 bytes from address 8 on.
abbrev mem : Mem
mem p = get_or (block (lines given)) (p - 8) 0

abbrev reader : HeaderReader
reader = record {
  reader = record {
    mem = mem;
    header_in = record { pos = 8; last = 39 };
    end = 2056;
    r = created;
    saved = cleared;
    rev_timedout = false;
    request_line_len = 0;
    request_length = 0;
    http_protocol_len = 0;
    server = request [];
  };
  wish = record { upgrade = false; sec_websocket_key = 0 };
  headers = [];
}

abbrev last_turn : Turn
last_turn = record { input = nothing; pushed = true; memory = none }

host-IsHeaderText : IsHeaderText host
unfolding lowcase
host-IsHeaderText = record {
  name = omega arith;
  value_start = omega arith;
  value = omega arith;
  value_end = refl;
}

upgrade-IsHeaderText : IsHeaderText upgrade
unfolding lowcase
upgrade-IsHeaderText = record {
  name = omega arith;
  value_start = omega arith;
  value = omega arith;
  value_end = refl;
}

reader-IsReceived : IsReceived given reader
reader-IsReceived = record {
  in_time = refl;
  fresh = refl;
  held = omega arith;
  within = omega arith;
  room = omega arith;
  fine = (host-IsHeaderText, inr (omega arith), (upgrade-IsHeaderText, inr (omega arith), tt));
}

process_request_headers_lem_example :
    (h' : HeaderReader) × (process_request_headers (turns given last_turn) reader ≡ complete h')
    × (h'.headers ≡ [] ++ headers_at given 8)
    × (h'.reader.header_in.pos ≡ 8 + block_length given)
process_request_headers_lem_example =
    process_request_headers_lem given last_turn reader reader-IsReceived
