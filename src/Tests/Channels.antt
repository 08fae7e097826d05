-- ===== src/Tests/Channels.antt =====
-- A channel of three clients and a message of two bytes.
use nginx_comment.Common.{
  ℕ, ◌≡◌, refl, true, some, [], ◌∷◌, ◌++◌, ◌==◌, if◌then◌else◌, Bytes, Ptr, arith,
}
use nginx_comment.Connection.{Answer, Sys, taken, broken, unix_send}
use nginx_comment.HashTable.{insert, insert_here, replace, lookup, find, null}
use nginx_comment.HashTable.Map.{empty}
use nginx_comment.Tests.Tables.{channels, channels-IsValid}
use nginx_comment.Queue.Insertion.{kept}
use nginx_comment.Queue.Ring.{IsQueue}
use nginx_comment.Tests.Queue.{three, three-IsQueue}
use nginx_comment.Tests.Response.{opened}
use nginx_comment.Websocket.Channels.{
  new_client, Worker, after_message, message_handler, send_message_handler, done, freed, deliver,
  Message, Sending, process_messages, Memory, joined, init_connection,
}
use nginx_comment.Websocket.Channels.Clients.{takes_all, received}
use nginx_comment.Websocket.Channels.Complete.{deliver_lem, deliver-freed}
use nginx_comment.Websocket.Channels.Messages.{process_messages_lem}
use nginx_comment.Websocket.Channels.Joining.{init_connection-first}
use nginx_comment.Websocket.Channels.Dropped.{
  messaged, Reachable, here, then_step, send_message_handler-idle,
}

abbrev worker : Worker
worker = record { links = three; client = λ p. new_client opened 1; table = channels }

abbrev message : Bytes
message = 7 ∷ 9 ∷ []

abbrev answer : Sys → Answer
answer last = record { interruptions = 0; last = last; rearmed = true }

-- The client 3 takes one byte only.
abbrev slow : Ptr → Answer
slow p = answer (if p == 3 then taken 1 else taken 2)

-- The send to the client 3 fails.
abbrev failing : Ptr → Answer
failing p = answer (if p == 3 then broken else taken 2)

deliver_lem_example :
    (w : Worker) × (deliver 9 slow message 1 (worker.links.next 1) worker ≡ done w)
    × IsQueue (w.links) 1 (kept (takes_all slow message) (8 ∷ 3 ∷ 5 ∷ []))
    × ((p : Ptr)
        → (w.client p).c.wire
          ≡ (worker.client p).c.wire ++ received slow message (8 ∷ 3 ∷ 5 ∷ []) p)
deliver_lem_example =
    deliver_lem slow message 1 worker (omega arith) 9 (8 ∷ 3 ∷ 5 ∷ []) three-IsQueue
      ((refl, refl), ((refl, refl), ((refl, refl), tt))) (refl, (refl, (refl, tt))) (omega arith)

deliver-freed_example :
    (w : Worker) × (deliver 9 failing message 1 (worker.links.next 1) worker ≡ freed 3 w)
deliver-freed_example =
    deliver-freed failing message 1 worker (omega arith) 9 (8 ∷ []) 3 (5 ∷ []) three-IsQueue
      ((refl, refl), ((refl, refl), ((refl, refl), tt))) (refl, tt) refl (omega arith)

abbrev behind : Worker
behind = message_handler (answer (taken 1)) message 3 worker

behind-Reachable : Reachable worker behind
behind-Reachable =
    then_step worker worker behind (here worker) (messaged (answer (taken 1)) message 3 worker)

send_message_handler-idle_example : send_message_handler (answer (taken 1)) 3 behind ≡ behind
unfolding message_handler after_message unix_send
send_message_handler-idle_example =
    send_message_handler-idle worker behind (answer (taken 1)) 3 (λ p. refl) behind-Reachable refl

abbrev found : Worker
found = record worker { table = (insert true true 1 1 channels).0 }

found-lookup : lookup 1 (found.table) ≡ 1
unfolding empty insert insert_here replace lookup find
found-lookup = refl

-- Two new messages at the end of the ring and at its beginning, and old ones.
abbrev ring : ℕ → Message
ring i =
    if i == 1023
    then record { message_id = 4; channel_id = 1; message = message }
    else if i == 0
    then record { message_id = 6; channel_id = 1; message = 5 ∷ [] }
    else record { message_id = 2; channel_id = 1; message = 8 ∷ [] }

abbrev sending : Sending
sending = record { message_send = 1023; id_sent = 3 }

process_messages_lem_example :
    (w : Worker) × (process_messages 5 9 (λ id p. answer (taken 2)) ring sending found
      ≡ (done w, record { message_send = 1; id_sent = 6 }))
    × IsQueue (w.links) 1 (8 ∷ 3 ∷ 5 ∷ [])
    × ((w.client 3).c.wire ≡ (found.client 3).c.wire ++ (7 ∷ 9 ∷ 5 ∷ []))
process_messages_lem_example =
    process_messages_lem 2 5 9 (λ id p. answer (taken 2)) ring sending 1 1 found (8 ∷ []) 3 (5 ∷ [])
      (omega arith) found-lookup (λ e. omega arith) three-IsQueue
      ((refl, refl), ((refl, refl), ((refl, refl), tt)))
      (
        omega arith,
        refl,
        omega arith,
        (refl, (refl, (refl, tt))),
        (omega arith, refl, omega arith, (refl, (refl, (refl, tt))), omega arith),
      )
      (omega arith)

abbrev memory : Memory
memory = record { pool = true; wc = some 40; queue = some 50; calloc = true; malloc = true }

inserted : (insert true true 1 50 channels).1 ≡ true
unfolding empty insert insert_here replace
inserted = refl

absent : lookup 1 channels ≡ null
unfolding empty lookup find
absent = refl

init_connection-first_example :
    (w : Worker) × (init_connection memory opened 1 worker ≡ joined w)
    × IsQueue (w.links) 50 (40 ∷ [])
    × (lookup 1 (w.table) ≡ 50)
    × (w.client 40 ≡ record (new_client opened 1) { in_queue = true })
unfolding empty
init_connection-first_example =
    init_connection-first memory opened 1 40 50 worker 1 channels-IsValid (omega arith) refl refl
      refl (λ e. omega arith) absent inserted
