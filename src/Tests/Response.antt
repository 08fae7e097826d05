-- ===== src/Tests/Response.antt =====
-- A request for the upgrade and its answer.
use nginx_comment.Common.{
  ◌≡◌, refl, true, false, none, some, List, [], ◌∷◌, map, replicate, Bytes, codes, arith,
}
use nginx_comment.Connection.{Connection, Answer}
use nginx_comment.Http.Response.{Server, websocket_writer}
use nginx_comment.Http.Response.Outcome.{Outcome, Ends, IsUpgraded}
use nginx_comment.Http.Response.Serving.{websocket_writer-Outcome}
use nginx_comment.Http.Response.Handshake.{
  taking, breaking, answer_text, handshake, websocket_handler-served, websocket_writer-stuck,
}

abbrev key : Bytes
key = codes "dGhlIHNhbXBsZSBub25jZQ=="

abbrev pub opened : Connection
opened = record {
  wev_timedout = false;
  wev_ready = true;
  wev_error = false;
  timer_set = false;
  timedout = false;
  error = false;
  close = false;
  destroyed = false;
  reusable = false;
  is_open = true;
  sent_bytes = 0;
  wire = [];
}

abbrev pub request : Bytes → Server
request bytes = record {
  c = opened;
  r_error = false;
  alive = true;
  upgrade = true;
  sec_websocket_key = some key;
  pending = bytes;
  upgraded = false;
}

abbrev text : Bytes
text = codes "HTTP/1.1 101"

-- The first send is interrupted and then fails, the second takes five bytes.
abbrev rounds : List Answer
rounds = breaking (1, true) ∷ taking (0, 4) ∷ []

websocket_writer-Outcome_example : Ends (Outcome text) (websocket_writer rounds (request text))
websocket_writer-Outcome_example =
    websocket_writer-Outcome text rounds (request text) refl
      (refl, omega arith, refl, (refl, refl, refl))

websocket_writer-stuck_example :
    websocket_writer (map breaking ((0, true) ∷ (2, false) ∷ [])) (request text) ≡ none
websocket_writer-stuck_example =
    websocket_writer-stuck ((0, true) ∷ (2, false) ∷ []) (request text) (omega arith) refl refl

-- Two hundred bytes at each write event.
websocket_handler-served_example :
    Ends
      (IsUpgraded (answer_text key))
      (handshake (replicate 64 0) (map taking (replicate 200 (0, 199))) (request []))
websocket_handler-served_example =
    websocket_handler-served (replicate 64 0) key (replicate 200 (0, 199)) (request []) refl
      (record {
        upgrade = refl;
        given = refl;
        no_error = refl;
        live = (refl, refl, refl);
        timely = (refl, refl);
      })
      (omega arith)
