-- ===== src/Websocket/Channels.antt =====
-- demo/src/http/ngx_websocket.c: the connections of a channel, kept in a queue that the hash table
-- finds by the channel's number, and the delivery of messages to them.
pub mod Round
pub mod Clients
pub mod Delivery
pub mod Complete
pub mod Messages
pub mod Joining
pub mod Dropped
use nginx_comment.Common.{
  ℕ, zero, suc, ◌+◌, ◌%◌, Bool, true, false, Option, none, some, List, [], ◌∷◌, ◌==◌, ltb,
  if◌then◌else◌, length, replicate, take, Bytes, Ptr,
}
use nginx_comment.Connection.{
  Answer, SendResult, again, failed, sent, Connection, unix_send, wanting, close_connection,
}
use nginx_comment.HashTable.{HashTable, null, lookup, insert}
use nginx_comment.Queue.{Links, init, insert_tail, remove}

-- `ngx_websocket_connection_t` with its connection; `alive` is whether `wc->pool`, in which it stands,
-- is not destroyed.
pub record Client : Type 0 where
  pub c : Connection
  pub alive : Bool
  pub in_queue : Bool
  pub channel_id : ℕ
  pub message_size : ℕ
  pub buffer : Bytes

-- What the handlers of a worker share. A client is named by its node `wc->queue`.
pub record Worker : Type 0 where
  pub links : Links
  pub client : Ptr → Client
  pub table : HashTable

-- `ngx_websocket_message_t`: its first `message_length` bytes.
pub record Message : Type 0 where
  pub message_id : ℕ
  pub channel_id : ℕ
  pub message : Bytes

abbrev pub set_client : Ptr → Client → Worker → Worker
set_client p k w = record w { client = λ q. if q == p then k else w.client q }

abbrev pub set_connection : Ptr → Connection → Worker → Worker
set_connection p c w = set_client p (record (w.client p) { c = c }) w

-- `ngx_websocket_close_connection`
unfoldable pub close_client : Ptr → Worker → Worker
close_client p w =
    let k = w.client p in
    let links = if k.in_queue then remove p (w.links) else w.links in
    set_client p (record k { c = close_connection (k.c); alive = false })
      (record w { links = links })

-- `ngx_queue_remove(&wc->queue)` with `wc->in_queue = 0`
abbrev pub leave_queue : Ptr → Worker → Worker
leave_queue p w =
    set_client p (record (w.client p) { in_queue = false })
      (record w { links = remove p (w.links) })

-- What `ngx_websocket_message_handler` does about a result of `c->send`; `rearmed` is whether
-- `ngx_handle_write_event` returns NGX_OK, `size` the length of the message.
unfoldable pub after_message : Bool → ℕ → Ptr → SendResult → Worker → Worker
unfolding close_client
after_message rearmed size p again w =
    let w1 = set_connection p (wanting ((w.client p).c)) w in
    if rearmed then leave_queue p w1 else close_client p w1
after_message rearmed size p failed w = close_client p w
after_message rearmed size p (sent zero) w = close_client p w
after_message rearmed size p (sent (suc n)) w =
    if ltb (suc n) size then (if rearmed then leave_queue p w else close_client p w) else w

-- `ngx_websocket_message_handler`
unfoldable pub message_handler : Answer → Bytes → Ptr → Worker → Worker
unfolding after_message
message_handler a bytes p w =
    let c = (w.client p).c in
    let (result, c1) = unix_send (a.interruptions) (a.last) bytes c in
    let rest = after_message (a.rearmed) (length bytes) p result (set_connection p c1 w) in
    if c.wev_timedout
    then close_client p (set_connection p (record c { timedout = true }) w)
    else if length bytes == 0
    then w
    else rest

-- How the walk over a channel ends; `freed p` where it reads `next` in the memory of `p` behind
-- `ngx_destroy_pool`.
pub data Walked : Type 0 where
  done : Worker → Walked
  freed : Ptr → Worker → Walked
  endless : Walked

-- The walk over a channel in `ngx_websocket_process_messages`: `answers` is the system's part for
-- each client, `head` the queue and `next` where the walk is.
unfoldable pub deliver : ℕ → (Ptr → Answer) → Bytes → Ptr → Ptr → Worker → Walked
unfolding message_handler
deliver zero answers bytes head next w = endless
deliver (suc fuel) answers bytes head next w =
    let w1 = message_handler (answers next) bytes next w in
    let rest = deliver fuel answers bytes head (w1.links.next next) w1 in
    if next == head then done w else if (w1.client next).alive then rest else freed next w1

-- `NGX_WEBSOCKET_MESSAGE_N` messages, the `next` of each in `ngx_messages` as
-- `ngx_create_shared_memory` sets it. A message is named by its index.
abbrev pub message_n : ℕ
message_n = 1024

abbrev pub next_message : ℕ → ℕ
next_message i = (i + 1) % message_n

-- `ngx_websocket_message_send` and `ngx_websocket_message_id_sent`.
pub record Sending : Type 0 where
  pub message_send : ℕ
  pub id_sent : ℕ

-- What follows a walk: the next round, where it ended.
abbrev pub go_on : (Worker → Walked × Sending) → Sending → Walked → Walked × Sending
go_on rest s (done w) = rest w
go_on rest s (freed p w) = (freed p w, s)
go_on rest s endless = (endless, s)

-- `ngx_websocket_process_messages`: `rounds` and `fuel` bound the two loops, `answers` is the system's
-- part for each message, and `ring` are the messages.
unfoldable pub process_messages :
    ℕ → ℕ → (ℕ → Ptr → Answer) → (ℕ → Message) → Sending → Worker → Walked × Sending
unfolding deliver
process_messages zero fuel answers ring s w = (endless, s)
process_messages (suc rounds) fuel answers ring s w =
    let m = ring s.message_send in
    let queue = lookup m.channel_id w.table in
    let sent_next : Sending = record {
      message_send = next_message s.message_send;
      id_sent = m.message_id;
    } in
    let rest = process_messages rounds fuel answers ring sent_next in
    if ltb s.id_sent m.message_id
    then (if queue == null
        then rest w
        else go_on rest s
            (deliver fuel (answers m.message_id) m.message queue (w.links.next queue) w))
    else (done w, s)

-- The end of `ngx_websocket_send_message_handler`: the client joins its channel again.
unfoldable pub rejoin : Ptr → Worker → Worker
unfolding close_client
rejoin p w =
    let queue = lookup ((w.client p).channel_id) (w.table) in
    let w1 = record w { links = insert_tail queue p (w.links) } in
    if queue == null
    then close_client p w
    else set_client p (record (w.client p) { in_queue = true }) w1

-- What `ngx_websocket_send_message_handler` does about a result of `c->send`.
unfoldable pub after_rest : Bool → ℕ → Ptr → SendResult → Worker → Worker
unfolding rejoin
after_rest rearmed size p again w =
    let w1 = set_connection p (wanting ((w.client p).c)) w in
    if rearmed then w1 else close_client p w1
after_rest rearmed size p failed w = close_client p w
after_rest rearmed size p (sent zero) w = close_client p w
after_rest rearmed size p (sent (suc n)) w =
    if ltb (suc n) size then (if rearmed then rejoin p w else close_client p w) else rejoin p w

-- `ngx_websocket_send_message_handler`
unfoldable pub send_message_handler : Answer → Ptr → Worker → Worker
unfolding after_rest
send_message_handler a p w =
    let k = w.client p in
    let c = k.c in
    let bytes = take (k.message_size) (k.buffer) in
    let (result, c1) = unix_send (a.interruptions) (a.last) bytes c in
    let rest = after_rest (a.rearmed) (k.message_size) p result (set_connection p c1 w) in
    if c.wev_timedout
    then close_client p (set_connection p (record c { timedout = true }) w)
    else if k.message_size == 0
    then w
    else rest

-- `NGX_WEBSOCKET_MAX_MESSAGE_LENGTH`
abbrev pub max_message_length : ℕ
max_message_length = 256

-- The memory that `ngx_websocket_init_connection` is given: the pool and the client in it, the new
-- queue, and what `calloc` and `malloc` answer in the hash table.
pub record Memory : Type 0 where
  pub pool : Bool
  pub wc : Option Ptr
  pub queue : Option Ptr
  pub calloc : Bool
  pub malloc : Bool

-- `ngx_websocket_init_connection` puts the client into its channel, or closes the connection. What is
-- closed before there is a client is returned.
pub data Joined : Type 0 where
  joined : Worker → Joined
  refused : Worker → Joined
  turned_away : Connection → Joined

-- The zeroed client of `ngx_websocket_init_connection`.
abbrev pub new_client : Connection → ℕ → Client
new_client c channel_id = record {
  c = c;
  alive = true;
  in_queue = false;
  channel_id = channel_id;
  message_size = 0;
  buffer = replicate max_message_length 0;
}

abbrev pub enter_queue : Ptr → Ptr → Worker → Worker
enter_queue queue p w =
    set_client p (record (w.client p) { in_queue = true })
      (record w { links = insert_tail queue p (w.links) })

-- The part of `ngx_websocket_init_connection` that makes a channel, in the memory for its queue.
unfoldable pub make_channel : Memory → Option Ptr → Ptr → ℕ → Worker → Joined
make_channel m none p channel_id w =
    refused (set_connection p (close_connection ((w.client p).c)) w)
make_channel m (some q) p channel_id w =
    let (table, inserted) = insert (m.calloc) (m.malloc) channel_id q (w.table) in
    let w1 = record w { table = table; links = init q (w.links) } in
    if inserted
    then joined (enter_queue q p w1)
    else refused (set_connection p (close_connection ((w.client p).c)) w1)

-- The part that finds the channel.
unfoldable pub join_channel : Memory → Ptr → ℕ → Worker → Joined
unfolding make_channel
join_channel m p channel_id w =
    let queue = lookup channel_id (w.table) in
    if queue == null
    then make_channel m (m.queue) p channel_id w
    else joined (enter_queue queue p w)

-- `ngx_websocket_init_connection`, in the memory for the client.
unfoldable pub init_client : Memory → Option Ptr → Connection → ℕ → Worker → Joined
unfolding join_channel
init_client m none c channel_id w = turned_away (close_connection c)
init_client m (some p) c channel_id w =
    if m.pool
    then join_channel m p channel_id (set_client p (new_client c channel_id) w)
    else turned_away (close_connection c)

unfoldable pub init_connection : Memory → Connection → ℕ → Worker → Joined
unfolding init_client
init_connection m c channel_id w = init_client m (m.wc) c channel_id w
