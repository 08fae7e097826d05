-- ===== src/Websocket/Channels/Messages.antt =====
-- `ngx_websocket_process_messages` on several messages, in a channel whose clients keep up.
use mathlib.Core.Bool.{true≢false}
use mathlib.Core.List.{append_assoc, append-nil}
use nginx_comment.Common.{
  ℕ, zero, suc, ◌<◌, ◌≤◌, ◌≡◌, ◌≢◌, refl, sym, ap, ◌∙◌, Bool, true, false, ◌==◌, ==_iff, ==_ne,
  if◌then◌else◌, ltb, List, [], ◌∷◌, ◌++◌, Bool-cases, if_true, if_false, inl, inr, arith, length,
  take, take_whole, Bytes, Ptr,
}
use nginx_comment.Connection.{Sys, taken, unavailable, broken, Answer}
use nginx_comment.Connection.Send.{moved}
use nginx_comment.HashTable.{null, lookup}
use nginx_comment.Queue.Ring.{IsQueue}
use nginx_comment.Queue.Insertion.{kept}
use nginx_comment.Websocket.Channels.{
  Worker, Message, Walked, done, deliver, go_on, process_messages, Sending, next_message,
}
use nginx_comment.Websocket.Channels.Round.{Fate, whole, short, lost, fate, fate_of, survives}
use nginx_comment.Websocket.Channels.Clients.{took, takes_all, received, AllSurvive, AllReady, IsAs}
use nginx_comment.Websocket.Channels.Complete.{deliver-Delivered}

-- Every client takes the whole message.
abbrev pub AllTake : (Ptr → Answer) → Bytes → List Ptr → Type 0
AllTake answers bytes [] = Unit
AllTake answers bytes (x ∷ xs) = (takes_all answers bytes x ≡ true) × AllTake answers bytes xs

-- The next `n` messages of the ring are of one channel, their numbers rise from that sent last, and
-- they are whole for every client; the one behind them is no newer than the last of them.
abbrev pub AllWhole : (ℕ → Ptr → Answer) → List Ptr → ℕ → (ℕ → Message) → ℕ → Sending → Type 0
AllWhole answers xs channel_id ring zero s = (ring s.message_send).message_id ≤ s.id_sent
AllWhole answers xs channel_id ring (suc n) s =
    let m = ring s.message_send in
    (s.id_sent < m.message_id)
    × (m.channel_id ≡ channel_id)
    × (0 < length m.message)
    × AllTake (answers m.message_id) m.message xs
    × AllWhole answers xs channel_id ring n
        (record { message_send = next_message s.message_send; id_sent = m.message_id })

-- The texts of the next `n` messages.
abbrev pub joined_text : (ℕ → Message) → ℕ → ℕ → Bytes
joined_text ring zero i = []
joined_text ring (suc n) i = (ring i).message ++ joined_text ring n (next_message i)

-- The place behind the next `n` messages, and the number of the last of them.
abbrev pub all_sent : (ℕ → Message) → ℕ → Sending → Sending
all_sent ring zero s = s
all_sent ring (suc n) s = all_sent ring n (record {
  message_send = next_message s.message_send;
  id_sent = (ring s.message_send).message_id;
})

took-survives : (f : Fate) → took f ≡ true → survives f ≡ true
took-survives whole e = refl
took-survives short e = absurd (true≢false (sym e))
took-survives lost e = absurd (true≢false (sym e))

AllTake-AllSurvive :
    (answers : Ptr → Answer) (bytes : Bytes) (xs : List Ptr)
    → AllTake answers bytes xs
    → AllSurvive answers bytes xs
AllTake-AllSurvive answers bytes [] h = tt
AllTake-AllSurvive answers bytes (x ∷ xs) h =
    (took-survives (fate (answers x) bytes) h.0, AllTake-AllSurvive answers bytes xs h.1)

AllTake-kept :
    (answers : Ptr → Answer) (bytes : Bytes) (xs : List Ptr)
    → AllTake answers bytes xs
    → kept (takes_all answers bytes) xs ≡ xs
AllTake-kept answers bytes [] h = refl
AllTake-kept answers bytes (x ∷ xs) h =
    if_true _ h.0 ∙ ap (λ l. x ∷ l) (AllTake-kept answers bytes xs h.1)

not_took : (rearmed : Bool) → took (if rearmed then short else lost) ≡ false
not_took true = refl
not_took false = refl

take-took :
    (rearmed : Bool) (last : Sys) (bytes : Bytes)
    → took (fate_of rearmed last (length bytes)) ≡ true
    → take (moved last) bytes ≡ bytes
take-took rearmed (taken zero) bytes h = absurd (true≢false (sym h))
take-took rearmed (taken (suc n)) bytes h = elim (Bool-cases (ltb (suc n) (length bytes))) [
  | inl e ↦ absurd (
      true≢false (
        sym h
        ∙ ap (λ b. took (if b then (if rearmed then short else lost) else whole)) e
        ∙ not_took rearmed))
  | inr e ↦ take_whole (suc n) bytes (ground arith)
]
take-took true unavailable bytes h = absurd (true≢false (sym h))
take-took false unavailable bytes h = absurd (true≢false (sym h))
take-took rearmed broken bytes h = absurd (true≢false (sym h))

AllTake-received :
    (answers : Ptr → Answer) (bytes : Bytes) (us : List Ptr) (p : Ptr) (vs : List Ptr)
    → AllTake answers bytes (us ++ p ∷ vs)
    → received answers bytes (us ++ p ∷ vs) p ≡ bytes
AllTake-received answers bytes [] p vs h =
    if_true _ ((==_iff p p).1 refl) ∙ take-took ((answers p).rearmed) ((answers p).last) bytes h.0
AllTake-received answers bytes (u ∷ us) p vs h = elim (Bool-cases (p == u)) [
  | inl e ↦ if_true _ e ∙ take-took ((answers u).rearmed) ((answers u).last) bytes h.0
  | inr e ↦ if_false _ e ∙ AllTake-received answers bytes us p vs h.1
]

AllReady-same :
    (w w' : Worker) (xs : List Ptr) → ((p : Ptr) → IsAs w' w p) → AllReady w xs → AllReady w' xs
AllReady-same w w' [] s h = tt
AllReady-same w w' (x ∷ xs) s h = (((s x).0 ∙ h.0.0, (s x).1 ∙ h.0.1), AllReady-same w w' xs s h.1)

ltb-true : (a b : ℕ) → a < b → ltb a b ≡ true
ltb-true a b h = ground arith

ltb-false : (a b : ℕ) → b ≤ a → ltb a b ≡ false
ltb-false a b h = ground arith

-- The next messages of the ring, any number of them, have numbers that rise above the last one sent and
-- a byte or more each, and are of one channel, which the hash table finds and whose clients are there, are
-- not late and take every message whole; the message behind them is no newer than the last. Given fuel
-- for the messages and for the clients, the loop ends there, with the last number, the queue holds the
-- same clients in the same order, and what any of them is sent is those messages one after the other,
-- each once.
pub process_messages_lem :
    (n rounds fuel : ℕ) (answers : ℕ → Ptr → Answer) (ring : ℕ → Message) (s : Sending)
    (channel_id head : ℕ) (w : Worker) (us : List Ptr) (p : Ptr) (vs : List Ptr)
    → n < rounds
    → lookup channel_id (w.table) ≡ head
    → head ≢ null
    → IsQueue (w.links) head (us ++ p ∷ vs)
    → AllReady w (us ++ p ∷ vs)
    → AllWhole answers (us ++ p ∷ vs) channel_id ring n s
    → length (us ++ p ∷ vs) < fuel
    → (w' : Worker) × (process_messages rounds fuel answers ring s w ≡ (done w', all_sent ring n s))
      × IsQueue (w'.links) head (us ++ p ∷ vs)
      × ((w'.client p).c.wire ≡ (w.client p).c.wire ++ joined_text ring n s.message_send)
unfolding process_messages
process_messages_lem n zero fuel answers ring s channel_id head w us p vs g f ne q r a l =
    absurd (omega arith)
process_messages_lem zero (suc rounds) fuel answers ring s channel_id head w us p vs g f ne q r a
      l =
    (
      w,
      if_false _ (ltb-false s.id_sent (ring s.message_send).message_id a),
      q,
      sym (append-nil ((w.client p).c.wire)),
    )
process_messages_lem (suc n) (suc rounds) fuel answers ring s channel_id head w us p vs g f ne q r
      (i, c, size, k, a) l =
    let m = ring s.message_send in
    let s2 : Sending = record {
      message_send = next_message s.message_send;
      id_sent = m.message_id;
    } in
    let xs = us ++ p ∷ vs in
    let ans = answers (m.message_id) in
    let d =
      deliver-Delivered ans (m.message) head w size fuel xs q r
        (AllTake-AllSurvive ans (m.message) xs k) l in
    let w1 = d.behind in
    let found : lookup (m.channel_id) (w.table) ≡ head = ap (λ j. lookup j (w.table)) c ∙ f in
    let rest = process_messages rounds fuel answers ring s2 in
    let body : Ptr → Walked × Sending = λ queue.
      if queue == null
      then rest w
      else go_on rest s (deliver fuel ans (m.message) queue (w.links.next queue) w) in
    let (w2, e, q2, t) =
      process_messages_lem n rounds fuel answers ring s2 channel_id head w1 us p vs (omega arith)
        (ap (lookup channel_id) (d.table) ∙ f) ne
        (rw (sym (AllTake-kept ans (m.message) xs k)) (d.queue)) (AllReady-same w w1 xs (d.same) r)
        a l in
    (
      w2,
      if_true _ (ltb-true s.id_sent (m.message_id) i)
          ∙ ap body found
          ∙ if_false _ (==_ne head null ne)
          ∙ ap (go_on rest s) (d.goes)
          ∙ e,
      q2,
      t
          ∙ ap (λ b. b ++ joined_text ring n (next_message s.message_send))
              (d.wire p
                ∙ ap (λ b. (w.client p).c.wire ++ b) (AllTake-received ans (m.message) us p vs k))
          ∙ append_assoc ((w.client p).c.wire) (m.message)
              (joined_text ring n (next_message s.message_send)),
    )
