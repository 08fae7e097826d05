-- ===== src/Redis/Bounds.antt =====
-- The arrays of the redis connection other than `number`: what is written stays inside them in every
-- state.
use nginx_comment.Common.{
  ℕ, ◌-◌, ◌≤◌, ◌<◌, ◌≡◌, ◌⊎◌, inr, false, [], ◌∷◌, ◌++◌, arith, set, take, length, length-set,
  length-append, length-take, Bytes, Ptr, Mem, codes,
}
use nginx_comment.Common.Scan.{Round, next, stop, Keeps, Ends, scan_inv}
use nginx_comment.Http.Request.{Buf}
use nginx_comment.Redis.Connection.{Code, overrun, Connection, decimal, strlen, message_prefix}
use nginx_comment.Redis.Steps.{step_advances}
use nginx_comment.Redis.Parser.{
  RedisState, start, subscribe, subscribe_channel_length, subscribe_channel_name,
  subscribe_channel_client, message, message_length, message_value, error, other, Machine, Exit,
  done, fail, step_start, step_error, step_subscribe, step_channel_length, step_channel_name,
  step_channel_client, step_message, step_message_length, step_message_value, step_digit,
  channel_length_end, channel_name_ended, step_in, step, finish, parse_message,
}

-- The index into `channel_name`, which has 21 bytes, is at most its last; a name has at most 20 bytes;
-- and the text in `channel_message_prefix`, whose array has 50 bytes, leaves room for its zero.
abbrev pub Inside : Connection → Type 0
Inside rc =
    (length rc.channel_name ≡ 21)
    × (rc.channel_name_index ≤ 20)
    × (rc.channel_name_length ≤ 20)
    × (length rc.channel_message_prefix < 50)

-- The parser was about to write behind `number`.
abbrev pub Overruns : Code → Connection → Type 0
Overruns c rc = (c ≡ overrun) × (20 ≤ rc.number_index)

abbrev ExitsInside : Exit → Type 0
ExitsInside (done rc p ended) = Inside rc
ExitsInside (fail c rc) = Overruns c rc ⊎ Inside rc

abbrev Stays : Round Machine Exit → Type 0
Stays = Keeps (λ m _. Inside m.rc) ExitsInside

length-decimal : (n : ℕ) → length (decimal n) ≤ 2
length-decimal n = ground arith

strlen_le : (bs : Bytes) → strlen bs ≤ length bs
unfolding strlen
strlen_le [] = omega arith
strlen_le (b ∷ bs) = ground (arith, strlen_le bs)

length-message_prefix :
    (n : ℕ) (name : Bytes) → length name ≤ 20 → length (message_prefix n name) < 50
unfolding message_prefix
length-message_prefix n name h = omega (
  arith,
  length-decimal n,
  length-append (decimal n) (codes "\r\n" ++ (name ++ codes "\r\n$")),
  length-append name (codes "\r\n$"),
)

module _ (mem : Mem) (rc : Connection) (p : Ptr) (h : Inside rc) where
  start-Stays : Stays (step_start mem rc p)
  unfolding step_start
  start-Stays = ground arith

  error-Stays : Stays (step_error mem rc p)
  unfolding step_error
  error-Stays = ground arith

  subscribe-Stays : Stays (step_subscribe mem rc p)
  unfolding step_subscribe
  subscribe-Stays = ground arith

  digit-Stays : (s : RedisState) → Stays (step_digit s mem rc p)
  unfolding step_digit
  digit-Stays s = ground (arith, length-set rc.number rc.number_index (mem p))

  length_end-Stays : Stays (channel_length_end rc p)
  unfolding channel_length_end
  length_end-Stays = ground (arith, length-set rc.number rc.number_index 0)

  name_ended-Stays : Stays (channel_name_ended rc p)
  unfolding channel_name_ended
  name_ended-Stays =
      let name = set rc.channel_name rc.channel_name_index 0 in
      ground (
        arith,
        length-set rc.channel_name rc.channel_name_index 0,
        length-take (strlen name) name,
        length-message_prefix rc.channel_name_length (take (strlen name) name),
      )

  client-Stays : Stays (step_channel_client mem rc p)
  unfolding step_channel_client
  client-Stays = ground arith

  value-Stays : Stays (step_message_value mem rc p)
  unfolding step_message_value
  value-Stays = ground arith

module _ (mem : Mem) (rc : Connection) (p : Ptr) (h : Inside rc) where
  channel_length-Stays : Stays (step_channel_length mem rc p)
  unfolding step_channel_length
  channel_length-Stays =
      ground (arith, length_end-Stays mem rc p h, digit-Stays mem rc p h subscribe_channel_length)

  channel_name-Stays : Stays (step_channel_name mem rc p)
  unfolding step_channel_name
  channel_name-Stays =
      ground (
        arith,
        name_ended-Stays mem rc p h,
        length-set rc.channel_name rc.channel_name_index (mem p),
      )

  message_length-Stays : Stays (step_message_length mem rc p)
  unfolding step_message_length
  message_length-Stays =
      ground (arith, digit-Stays mem rc p h message_length, length-set rc.number rc.number_index 0)

module _ (mem : Mem) (rc : Connection) (p : Ptr) (h : Inside rc) where
  message-Stays : Stays (step_message mem rc p)
  unfolding step_message
  message-Stays =
      ground (arith, message_length-Stays mem (record rc { number_index = 0 }) p (omega arith))

step-Stays :
    (s : RedisState) (mem : Mem) (rc : Connection) (p : Ptr)
    → Inside rc
    → Stays (step_in s mem rc p)
unfolding step_in
step-Stays start mem rc p h = start-Stays mem rc p h
step-Stays error mem rc p h = error-Stays mem rc p h
step-Stays subscribe mem rc p h = subscribe-Stays mem rc p h
step-Stays subscribe_channel_length mem rc p h = channel_length-Stays mem rc p h
step-Stays subscribe_channel_name mem rc p h = channel_name-Stays mem rc p h
step-Stays subscribe_channel_client mem rc p h = client-Stays mem rc p h
step-Stays message mem rc p h = message-Stays mem rc p h
step-Stays message_length mem rc p h = message_length-Stays mem rc p h
step-Stays message_value mem rc p h = value-Stays mem rc p h
step-Stays (other k) mem rc p h = h

finish-Inside :
    (mem : Mem) (b : Buf) (x : Round Machine Exit)
    → Ends b.last (λ m _. Inside m.rc) ExitsInside x
    → Overruns (finish mem b x).code (finish mem b x).rc ⊎ Inside (finish mem b x).rc
unfolding finish
finish-Inside mem b (next m p) h = inr h.0
finish-Inside mem b (stop (fail c rc)) h = h
finish-Inside mem b (stop (done rc p ended)) h = inr h

-- The index into `channel_name` is in its 21 bytes, the name has at most 20 bytes, and the prefix fits its
-- 50 bytes with the zero. Whatever redis sends then, and however it is cut into pieces, a call of
-- `ngx_process_parse_message` comes to a write behind the 20 bytes of `number`, or it leaves all this so.
pub parse_message-Inside :
    (mem : Mem) (rc : Connection) (b : Buf)
    → Inside rc
    → Overruns (parse_message mem rc b).code (parse_message mem rc b).rc
      ⊎ Inside (parse_message mem rc b).rc
unfolding parse_message
parse_message-Inside mem rc b h = finish-Inside mem b _ (
    scan_inv (step mem) (step_advances mem) (λ m _. Inside m.rc) ExitsInside b.last
      (λ m p k _. step-Stays m.state mem (record (m.rc) { parse_done = false }) p k)
      (b.last - b.pos) _ b.pos (omega arith) h)
