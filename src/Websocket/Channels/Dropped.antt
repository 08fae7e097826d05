-- ===== src/Websocket/Channels/Dropped.antt =====
-- The steps of a worker's clients, and what they never do: keep the rest of a message that a client
-- did not take.
use mathlib.Core.Path.{subst}
use nginx_comment.Common.{
  ℕ, zero, suc, ◌≡◌, refl, ap, ◌∙◌, Bool, true, false, Option, none, some, ◌==◌, ==_iff, ltb,
  if◌then◌else◌, Bool-cases, if_true, if_false, inl, inr, length, Bytes, Ptr,
}
use nginx_comment.Connection.{
  Answer, SendResult, again, failed, sent, Connection, unix_send, wanting, close_connection,
}
use nginx_comment.HashTable.{null, lookup, insert}
use nginx_comment.Queue.{init, insert_tail, remove}
use nginx_comment.Websocket.Channels.{
  Client, Worker, set_client, set_connection, close_client, leave_queue, after_message,
  message_handler, send_message_handler, Memory, Joined, joined, refused, turned_away, new_client,
  enter_queue, make_channel, join_channel, init_client, init_connection,
}

-- The handlers that the events of a client run.
pub data Step : Worker → Worker → Type 0 where
  messaged :
      (a : Answer) (bytes : Bytes) (p : Ptr) (w : Worker) → Step w (message_handler a bytes p w)
  writable : (a : Answer) (p : Ptr) (w : Worker) → Step w (send_message_handler a p w)
  joining :
      (m : Memory) (c : Connection) (channel_id : ℕ) (w w' : Worker)
      → init_connection m c channel_id w ≡ joined w'
      → Step w w'
  refusing :
      (m : Memory) (c : Connection) (channel_id : ℕ) (w w' : Worker)
      → init_connection m c channel_id w ≡ refused w'
      → Step w w'

pub data Reachable : Worker → Worker → Type 0 where
  here : (w : Worker) → Reachable w w
  then_step : (u v w : Worker) → Reachable u v → Step v w → Reachable u w

-- No client has the rest of a message to send.
abbrev pub NoneWaiting : Worker → Type 0
NoneWaiting w = (p : Ptr) → (w.client p).message_size ≡ 0

set_client-NoneWaiting :
    (p : Ptr) (k : Client) (w : Worker)
    → k.message_size ≡ 0
    → NoneWaiting w
    → NoneWaiting (set_client p k w)
set_client-NoneWaiting p k w e h q = elim (Bool-cases (q == p)) [
  | inl f ↦ ap (λ (c : Client). c.message_size) (if_true _ f) ∙ e
  | inr f ↦ ap (λ (c : Client). c.message_size) (if_false k f) ∙ h q
]

either-NoneWaiting :
    (b : Bool) (v w : Worker) → NoneWaiting v → NoneWaiting w → NoneWaiting (if b then v else w)
either-NoneWaiting true v w h k = h
either-NoneWaiting false v w h k = k

close_client-NoneWaiting : (p : Ptr) (w : Worker) → NoneWaiting w → NoneWaiting (close_client p w)
unfolding close_client
close_client-NoneWaiting p w h =
    let links = if (w.client p).in_queue then remove p (w.links) else w.links in
    set_client-NoneWaiting p
      (record (w.client p) { c = close_connection ((w.client p).c); alive = false })
      (record w { links = links }) (h p) h

set_connection-NoneWaiting :
    (p : Ptr) (c : Connection) (w : Worker) → NoneWaiting w → NoneWaiting (set_connection p c w)
set_connection-NoneWaiting p c w h =
    set_client-NoneWaiting p (record (w.client p) { c = c }) w (h p) h

leave_queue-NoneWaiting : (p : Ptr) (w : Worker) → NoneWaiting w → NoneWaiting (leave_queue p w)
leave_queue-NoneWaiting p w h =
    set_client-NoneWaiting p (record (w.client p) { in_queue = false })
      (record w { links = remove p (w.links) }) (h p) h

after_message-NoneWaiting :
    (rearmed : Bool) (size : ℕ) (p : Ptr) (r : SendResult) (w : Worker)
    → NoneWaiting w
    → NoneWaiting (after_message rearmed size p r w)
unfolding after_message
after_message-NoneWaiting rearmed size p again w h =
    let w1 = set_connection p (wanting ((w.client p).c)) w in
    let h1 = set_connection-NoneWaiting p (wanting ((w.client p).c)) w h in
    either-NoneWaiting rearmed (leave_queue p w1) (close_client p w1)
      (leave_queue-NoneWaiting p w1 h1) (close_client-NoneWaiting p w1 h1)
after_message-NoneWaiting rearmed size p failed w h = close_client-NoneWaiting p w h
after_message-NoneWaiting rearmed size p (sent zero) w h = close_client-NoneWaiting p w h
after_message-NoneWaiting rearmed size p (sent (suc n)) w h =
    either-NoneWaiting (ltb (suc n) size) (if rearmed then leave_queue p w else close_client p w) w
      (either-NoneWaiting rearmed (leave_queue p w) (close_client p w)
        (leave_queue-NoneWaiting p w h) (close_client-NoneWaiting p w h))
      h

message_handler-NoneWaiting :
    (a : Answer) (bytes : Bytes) (p : Ptr) (w : Worker)
    → NoneWaiting w
    → NoneWaiting (message_handler a bytes p w)
unfolding message_handler
message_handler-NoneWaiting a bytes p w h =
    let c = (w.client p).c in
    let late = set_connection p (record c { timedout = true }) w in
    let out = unix_send (a.interruptions) (a.last) bytes c in
    let w1 = set_connection p (out.1) w in
    let after = after_message (a.rearmed) (length bytes) p (out.0) w1 in
    either-NoneWaiting (c.wev_timedout) (close_client p late)
      (if length bytes == 0 then w else after)
      (close_client-NoneWaiting p late
        (set_connection-NoneWaiting p (record c { timedout = true }) w h))
      (either-NoneWaiting (length bytes == 0) w after h (
        after_message-NoneWaiting (a.rearmed) (length bytes) p (out.0) w1
          (set_connection-NoneWaiting p (out.1) w h)))

idle :
    (a : Answer) (p : Ptr) (w : Worker)
    → NoneWaiting w
    → (w.client p).c.wev_timedout ≡ false
    → send_message_handler a p w ≡ w
unfolding send_message_handler
idle a p w h t = if_false _ t ∙ if_true _ ((==_iff ((w.client p).message_size) 0).1 (h p))

send_message_handler-NoneWaiting :
    (a : Answer) (p : Ptr) (w : Worker) → NoneWaiting w → NoneWaiting (send_message_handler a p w)
unfolding send_message_handler
send_message_handler-NoneWaiting a p w h =
    let c = (w.client p).c in
    let late = set_connection p (record c { timedout = true }) w in
    elim (Bool-cases (c.wev_timedout)) [
      | inl e ↦ rw (if_true _ e) (
          close_client-NoneWaiting p late
            (set_connection-NoneWaiting p (record c { timedout = true }) w h))
      | inr e ↦ rw (idle a p w h e) h
    ]

-- The same of the result of `ngx_websocket_init_connection`.
abbrev JoinedNoneWaiting : Joined → Type 0
JoinedNoneWaiting (joined w) = NoneWaiting w
JoinedNoneWaiting (refused w) = NoneWaiting w
JoinedNoneWaiting (turned_away c) = Unit

either-JoinedNoneWaiting :
    (b : Bool) (i j : Joined)
    → JoinedNoneWaiting i
    → JoinedNoneWaiting j
    → JoinedNoneWaiting (if b then i else j)
either-JoinedNoneWaiting true i j h k = h
either-JoinedNoneWaiting false i j h k = k

enter_queue-NoneWaiting :
    (queue p : Ptr) (w : Worker) → NoneWaiting w → NoneWaiting (enter_queue queue p w)
enter_queue-NoneWaiting queue p w h =
    set_client-NoneWaiting p (record (w.client p) { in_queue = true })
      (record w { links = insert_tail queue p (w.links) }) (h p) h

make_channel-JoinedNoneWaiting :
    (m : Memory) (o : Option Ptr) (p : Ptr) (channel_id : ℕ) (w : Worker)
    → NoneWaiting w
    → JoinedNoneWaiting (make_channel m o p channel_id w)
unfolding make_channel
make_channel-JoinedNoneWaiting m none p channel_id w h =
    set_connection-NoneWaiting p (close_connection ((w.client p).c)) w h
make_channel-JoinedNoneWaiting m (some q) p channel_id w h =
    let r = insert (m.calloc) (m.malloc) channel_id q (w.table) in
    let w1 = record w { table = r.0; links = init q (w.links) } in
    let w2 = set_connection p (close_connection ((w.client p).c)) w1 in
    either-JoinedNoneWaiting (r.1) (joined (enter_queue q p w1)) (refused w2)
      (enter_queue-NoneWaiting q p w1 h)
      (set_connection-NoneWaiting p (close_connection ((w.client p).c)) w1 h)

join_channel-JoinedNoneWaiting :
    (m : Memory) (p : Ptr) (channel_id : ℕ) (w : Worker)
    → NoneWaiting w
    → JoinedNoneWaiting (join_channel m p channel_id w)
unfolding join_channel
join_channel-JoinedNoneWaiting m p channel_id w h =
    let queue = lookup channel_id (w.table) in
    either-JoinedNoneWaiting (queue == null) (make_channel m (m.queue) p channel_id w)
      (joined (enter_queue queue p w)) (make_channel-JoinedNoneWaiting m (m.queue) p channel_id w h)
      (enter_queue-NoneWaiting queue p w h)

init_client-JoinedNoneWaiting :
    (m : Memory) (o : Option Ptr) (c : Connection) (channel_id : ℕ) (w : Worker)
    → NoneWaiting w
    → JoinedNoneWaiting (init_client m o c channel_id w)
unfolding init_client
init_client-JoinedNoneWaiting m none c channel_id w h = tt
init_client-JoinedNoneWaiting m (some p) c channel_id w h =
    let w1 = set_client p (new_client c channel_id) w in
    either-JoinedNoneWaiting (m.pool) (join_channel m p channel_id w1)
      (turned_away (close_connection c))
      (join_channel-JoinedNoneWaiting m p channel_id w1
        (set_client-NoneWaiting p (new_client c channel_id) w refl h))
      tt

init_connection-JoinedNoneWaiting :
    (m : Memory) (c : Connection) (channel_id : ℕ) (w : Worker)
    → NoneWaiting w
    → JoinedNoneWaiting (init_connection m c channel_id w)
unfolding init_connection
init_connection-JoinedNoneWaiting m c channel_id w h =
    init_client-JoinedNoneWaiting m (m.wc) c channel_id w h

Step-NoneWaiting : (v w : Worker) → Step v w → NoneWaiting v → NoneWaiting w
Step-NoneWaiting _ _ (messaged a bytes p w) h = message_handler-NoneWaiting a bytes p w h
Step-NoneWaiting _ _ (writable a p w) h = send_message_handler-NoneWaiting a p w h
Step-NoneWaiting _ _ (joining m c channel_id w w' e) h =
    subst JoinedNoneWaiting e (init_connection-JoinedNoneWaiting m c channel_id w h)
Step-NoneWaiting _ _ (refusing m c channel_id w w' e) h =
    subst JoinedNoneWaiting e (init_connection-JoinedNoneWaiting m c channel_id w h)

Reachable-NoneWaiting : (v w : Worker) → Reachable v w → NoneWaiting v → NoneWaiting w
Reachable-NoneWaiting _ _ (here w) h = h
Reachable-NoneWaiting _ _ (then_step u v w r s) h =
    Step-NoneWaiting v w s (Reachable-NoneWaiting u v r h)

-- From a worker none of whose clients has a message to send, whatever messages, write events and new
-- connections come: the handler that is to send the rest of a message and to put the client back into
-- its channel's queue does nothing for a client that is not late.
pub send_message_handler-idle :
    (v w : Worker) (a : Answer) (p : Ptr)
    → NoneWaiting v
    → Reachable v w
    → (w.client p).c.wev_timedout ≡ false
    → send_message_handler a p w ≡ w
send_message_handler-idle v w a p h r t = idle a p w (Reachable-NoneWaiting v w r h) t
