-- ===== src/Http/Response/Handshake.antt =====
-- The answer to a websocket request over a sequence of write events, and a send that always fails.
use nginx_comment.Common.{
  ℕ, zero, suc, ◌+◌, ◌<◌, ◌≤◌, ◌≡◌, ◌⊎◌, refl, sym, ap, ◌∙◌, Bool, true, false, not, Option, none,
  some, List, [], ◌∷◌, ◌++◌, ==_ne, leb, if◌then◌else◌, Bool-cases, if_true, if_false, inl, inr,
  arith, map, length, take, drop, length-drop, length-append, Bytes,
}
use nginx_comment.Encoding.Base64.{encode_base64}
use nginx_comment.Encoding.Base64.RoundTrip.{length-encode_base64}
use nginx_comment.Sha1.Context.{regs_bytes}
use nginx_comment.Sha1.Digest.{digest}
use nginx_comment.Websocket.Accept.{websocket_uuid, build_accept_key-digest}
use nginx_comment.Connection.{taken, broken, Answer, wanting}
use nginx_comment.Http.Response.{
  ok, close_request, Server, forbidden, finalize_request, wait_for_write, after_send,
  websocket_writer, websocket_request_handler, c_text, switching_head, switching_tail, switching,
  handle_key, send_accept, websocket_handler,
}
use nginx_comment.Http.Response.Outcome.{
  IsLive, IsServing, IsUpgraded, unix_send_lem, Ends, rewritten,
}
use nginx_comment.Http.Response.Serving.{sent_whole, moved_on, whole-IsUpgraded}

-- A round in which the system takes a byte or more.
abbrev pub taking : ℕ × ℕ → Answer
taking (i, n) = record { interruptions = i; last = taken (suc n); rearmed = true }

-- A round in which `send` fails.
abbrev pub breaking : ℕ × Bool → Answer
breaking (i, rearmed) = record { interruptions = i; last = broken; rearmed = rearmed }

-- The write events of a connection, until it is passed on.
abbrev pub serve : List Answer → Server → Option Server
serve [] s = some s
serve (a ∷ later) s =
    if s.upgraded
    then some s
    else elim (websocket_request_handler (a ∷ []) s) [ none ↦ none | some t ↦ serve later t ]

-- The write event was not late and the connection is not being closed.
abbrev pub IsTimely : Server → Type 0
IsTimely s = (s.c.wev_timedout ≡ false) × (s.c.close ≡ false)

abbrev IsRound : Bytes → Server → Server → Type 0
IsRound all s t =
    IsUpgraded all t ⊎ (IsServing all t × IsTimely t × (length (t.pending) < length (s.pending)))

round :
    (all : Bytes) (i n : ℕ) (s : Server)
    → IsServing all s
    → IsTimely s
    → Ends (IsRound all s) (websocket_request_handler (taking (i, n) ∷ []) s)
unfolding websocket_request_handler websocket_writer after_send wait_for_write
round all i n s (b, p, r, h) (o, c) =
    let (t, e, k, w) = unix_send_lem i (taken (suc n)) (s.pending) s in
    let t1 = record t { pending = drop (suc n) (t.pending) } in
    let live : IsLive t = (k.2 ∙ h.0, k.3 ∙ h.1, k.4 ∙ h.2) in
    let own : s.c.wire ++ t.pending ≡ all = ap (λ l. s.c.wire ++ l) (k.0) ∙ b in
    let w' : t.c.wire ≡ s.c.wire ++ take (suc n) (t.pending) =
      w ∙ ap (λ l. s.c.wire ++ take (suc n) l) (sym k.0) in
    let here =
      if_false _ c
      ∙ if_false _ o
      ∙ if_false _ (==_ne (length (s.pending)) 0 (omega arith))
      ∙ ap (λ q. after_send (websocket_writer []) true (q.0) (q.1)) e in
    elim (Bool-cases (leb (length (t.pending)) (suc n))) [
      | inl f ↦ rewritten (here ∙ if_true _ f ∙ ap some (if_false _ (k.1 ∙ r))) (
        record (close_request ok t1) { upgraded = true },
        refl,
        inl (
            whole-IsUpgraded all t1
              (w' ∙ sent_whole all (suc n) (s.c.wire) (t.pending) own (ground arith)) live),
      )
      | inr f ↦ rewritten (here ∙ if_false _ f) (
        record t1 { c = wanting (t1.c) },
        refl,
        inr (
          (
            ap (λ l. l ++ drop (suc n) (t.pending)) w'
                ∙ moved_on all (suc n) (s.c.wire) (t.pending) own,
            rw (length-drop (suc n) (t.pending)) (ground arith),
            k.1 ∙ r,
            live,
          ),
          (k.6 ∙ o, k.5 ∙ c),
          rw (length-drop (suc n) (t.pending)) (omega (arith, ap length (k.0))),
        ),
      )
    ]

serve-IsUpgraded :
    (all : Bytes) (later : List Answer) (s : Server)
    → IsUpgraded all s
    → Ends (IsUpgraded all) (serve later s)
serve-IsUpgraded all [] s h = (s, refl, h)
serve-IsUpgraded all (a ∷ later) s h = rewritten (if_true _ h.3) (s, refl, h)

-- A response is sent as a whole, and the connection passed on, within as many write events as it has
-- bytes, when the system takes a byte or more at each.
pub serve_lem :
    (all : Bytes) (takes : List (ℕ × ℕ)) (s : Server)
    → IsServing all s
    → IsTimely s
    → length (s.pending) ≤ length takes
    → Ends (IsUpgraded all) (serve (map taking takes) s)
serve_lem all [] s h t l = absurd (omega (arith, h.1))
serve_lem all ((i, n) ∷ takes) s h t l =
    let (u, e, r) = round all i n s h t in
    let here =
      if_false _ h.3.2 ∙ ap (λ o. elim o [ none ↦ none | some t ↦ serve (map taking takes) t ]) e in
    elim r [
      | inl k ↦ rewritten here (serve-IsUpgraded all (map taking takes) u k)
      | inr k ↦ rewritten here (serve_lem all takes u k.0 k.1 (omega (arith, k.2)))
    ]

-- A request that is read: it asks for the upgrade with a key, and is neither freed nor in error.
pub record IsRequest (key : Bytes) (s : Server) : Type 0 where
  pub upgrade : s.upgrade ≡ true
  pub given : s.sec_websocket_key ≡ some key
  pub no_error : s.r_error ≡ false
  pub live : IsLive s
  pub timely : IsTimely s

-- The text that answers a key.
abbrev pub answer_text : Bytes → Bytes
answer_text key = switching (c_text (encode_base64 (digest (key ++ websocket_uuid)) ++ 0 ∷ []))

length-c_text : (bs : Bytes) → length (c_text bs) ≤ length bs
length-c_text [] = omega arith
length-c_text (zero ∷ bs) = omega arith
length-c_text (suc b ∷ bs) = omega (arith, length-c_text bs)

length-digest : (bs : Bytes) → length (digest bs) ≡ 20
unfolding digest regs_bytes
length-digest bs = refl

length-switching : (accept : Bytes) → length (switching accept) ≡ 128 + length accept
length-switching accept =
    length-append switching_head (accept ++ switching_tail)
    ∙ ap (λ n. 97 + n) (length-append accept switching_tail)
    ∙ plus (length accept)
  where
    plus : (n : ℕ) → 97 + (n + 31) ≡ 128 + n
    plus n = omega arith

length-answer_text : (key : Bytes) → length (answer_text key) ≤ 157
length-answer_text key =
    let text = encode_base64 (digest (key ++ websocket_uuid)) in
    rw (length-switching (c_text (text ++ 0 ∷ []))) (
      omega (
        arith,
        length-c_text (text ++ 0 ∷ []),
        length-append text (0 ∷ []),
        length-encode_base64 (digest (key ++ websocket_uuid)),
        length-digest (key ++ websocket_uuid),
      ))

-- `ngx_websocket_handler` and then the write events
abbrev pub handshake : Bytes → List Answer → Server → Option Server
handshake buffer [] s = none
handshake buffer (a ∷ later) s = elim (websocket_handler true buffer (a ∷ []) s) [
  | none ↦ none
  | some t ↦ serve later t
]

-- A request for the upgrade with a key is not freed and in no error, its connection is not marked to be
-- closed (`c->close`) and its write event not late, there are 64 bytes of memory for the key's answer,
-- and at each write event the system takes a byte or more, after any number of interruptions, and
-- `ngx_handle_write_event` succeeds where it is called. Then it is answered within 157 write events: the
-- system has taken the answer of status 101 with the base64 text of the key's digest, the request is
-- freed, and the connection, still open, is passed on as a websocket.
pub websocket_handler-served :
    (buffer key : Bytes) (takes : List (ℕ × ℕ)) (s : Server)
    → length buffer ≡ 64
    → IsRequest key s
    → 157 ≤ length takes
    → Ends (IsUpgraded (s.c.wire ++ answer_text key)) (handshake buffer (map taking takes) s)
unfolding websocket_handler handle_key send_accept websocket_request_handler
websocket_handler-served buffer key [] s size q l = absurd (omega arith)
websocket_handler-served buffer key ((i, n) ∷ takes) s size q l =
    let all = s.c.wire ++ answer_text key in
    let s1 = record s { pending = answer_text key } in
    let one = taking (i, n) ∷ [] in
    let h : IsServing all s1 = (refl, omega arith, q.no_error, q.live) in
    let same : websocket_handler true buffer one s ≡ websocket_request_handler one s1 =
      ap (λ k. handle_key (websocket_writer one) true buffer k s) (q.given)
      ∙ if_false _ (ap not (q.upgrade))
      ∙ ap (λ a. send_accept (websocket_writer one) a s) (build_accept_key-digest buffer key size)
      ∙ sym (if_false _ (q.timely.1)) in
    rewritten
      (ap (λ o. elim o [ none ↦ none | some t ↦ serve (map taking takes) t ]) same
        ∙ sym (if_false _ (q.live.2)))
      (serve_lem all ((i, n) ∷ takes) s1 h (q.timely) (omega (arith, length-answer_text key)))

-- With bytes to send, a write event that is not late and a connection that is not in error, the writer
-- has not returned after any number of rounds in which the send fails.
pub websocket_writer-stuck :
    (fails : List (ℕ × Bool)) (s : Server)
    → 0 < length (s.pending)
    → s.c.wev_timedout ≡ false
    → s.c.error ≡ false
    → websocket_writer (map breaking fails) s ≡ none
unfolding websocket_writer after_send finalize_request
websocket_writer-stuck [] s p o e = refl
websocket_writer-stuck ((i, b) ∷ fails) s p o f =
    let (t, e, k, w) = unix_send_lem i broken (s.pending) s in
    let writer = websocket_writer (map breaking fails) in
    let t1 = record t { r_error = true; pending = forbidden } in
    if_false _ o
    ∙ if_false _ (==_ne (length (s.pending)) 0 (omega arith))
    ∙ ap (λ q. after_send writer b (q.0) (q.1)) e
    ∙ if_false _ (k.7 ∙ f)
    ∙ websocket_writer-stuck fails t1 (omega arith) (k.6 ∙ o) (k.7 ∙ f)
