-- ===== src/Websocket/Channels/Joining.antt =====
-- `ngx_websocket_init_connection`: a connection joins a channel.
use nginx_comment.Common.{
  ℕ, suc, ◌^◌, ◌<◌, ◌≡◌, ◌≢◌, refl, ap, ◌∙◌, true, some, ◌==◌, ==_iff, [], ◌∷◌, if◌then◌else◌,
  if_true,
}
use nginx_comment.Connection.{Connection}
use nginx_comment.HashTable.{null, lookup, insert}
use nginx_comment.HashTable.Lookup.{IsValid}
use nginx_comment.HashTable.Map.{lookup-insert}
use nginx_comment.Queue.{init}
use nginx_comment.Queue.Ring.{IsQueue}
use nginx_comment.Queue.Contents.{insert_tail-IsQueue}
use nginx_comment.Queue.Order.{init-IsQueue}
use nginx_comment.Websocket.Channels.{
  Client, Worker, set_client, Memory, joined, new_client, enter_queue, make_channel, join_channel,
  init_client, init_connection,
}

-- The first connection of a channel, with memory for it and for the queue, where the table is well
-- formed with room to count one more entry below 2^60 and the insertion returns 1: the channel's number
-- leads to the new queue, every other number to what it led to before, and the new client, with
-- no message waiting, is the only element of the queue.
pub init_connection-first :
    (m : Memory) (c : Connection) (channel_id p queue : ℕ) (w : Worker) (j : ℕ)
    → IsValid (w.table)
    → suc (w.table.entries) < 2 ^ 60
    → m.pool ≡ true
    → m.wc ≡ some p
    → m.queue ≡ some queue
    → p ≢ queue
    → lookup channel_id (w.table) ≡ null
    → (insert (m.calloc) (m.malloc) channel_id queue (w.table)).1 ≡ true
    → (w' : Worker) × (init_connection m c channel_id w ≡ joined w')
      × IsQueue (w'.links) queue (p ∷ [])
      × (lookup j (w'.table) ≡ (if j == channel_id then queue else lookup j (w.table)))
      × (w'.client p ≡ record (new_client c channel_id) { in_queue = true })
unfolding init_connection init_client join_channel make_channel
init_connection-first m c channel_id p queue w j v few pool wc mq n absent ok =
    let w0 = set_client p (new_client c channel_id) w in
    let r = insert (m.calloc) (m.malloc) channel_id queue (w.table) in
    let w1 = record w0 { table = r.0; links = init queue (w.links) } in
    let w2 = enter_queue queue p w1 in
    let same = (==_iff p p).1 refl in
    (
      w2,
      ap (λ o. init_client m o c channel_id w) wc
          ∙ if_true _ pool
          ∙ if_true _ ((==_iff (lookup channel_id (w.table)) null).1 absent)
          ∙ ap (λ o. make_channel m o p channel_id w0) mq
          ∙ if_true _ ok,
      insert_tail-IsQueue (init queue (w.links)) queue p [] (init-IsQueue (w.links) queue) (n, tt),
      lookup-insert (m.calloc) (m.malloc) channel_id queue (w.table) v few j ok,
      if_true _ same ∙ ap (λ (k : Client). record k { in_queue = true }) (if_true _ same),
    )
