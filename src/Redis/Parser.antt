-- ===== src/Redis/Parser.antt =====
-- demo/src/os/unix/ngx_redis_message.c: `ngx_process_parse_message`.
use nginx_comment.Common.{
  ℕ, zero, suc, ◌+◌, ◌-◌, ◌%◌, ◌^◌, Bool, true, false, not, ◌&&◌, ltb, leb, ◌==◌, if◌then◌else◌,
  set, take, length, Bytes, Ptr, Mem,
}
use nginx_comment.Common.Scan.{Round, next, stop, scan}
use nginx_comment.Http.Request.{Buf, cr, lf}
use nginx_comment.Redis.Connection.{
  Code, ok, again, invalid_message, invalid_subscribe, invalid_channel_name, invalid_length,
  overrun, Connection, not_positive, above, atoi, strlen, starts_with, message_prefix,
  subscribe_reply,
}

-- The enumeration `state`; `other k` is the number 9 + k, which falls through the switch.
pub data RedisState : Type 0 where
  start subscribe subscribe_channel_length subscribe_channel_name subscribe_channel_client :
      RedisState
  message message_length message_value error : RedisState
  other : ℕ → RedisState

abbrev pub succeeding : RedisState → RedisState
succeeding start = subscribe
succeeding subscribe = subscribe_channel_length
succeeding subscribe_channel_length = subscribe_channel_name
succeeding subscribe_channel_name = subscribe_channel_client
succeeding subscribe_channel_client = message
succeeding message = message_length
succeeding message_length = message_value
succeeding message_value = error
succeeding error = other 0
succeeding (other k) = other (suc k)

-- `state = rc->state`
unfoldable pub state_at : ℕ → RedisState
state_at zero = start
state_at (suc n) = succeeding (state_at n)

-- `rc->state = state`
unfoldable pub index_of : RedisState → ℕ
index_of start = 0
index_of subscribe = 1
index_of subscribe_channel_length = 2
index_of subscribe_channel_name = 3
index_of subscribe_channel_client = 4
index_of message = 5
index_of message_length = 6
index_of message_value = 7
index_of error = 8
index_of (other k) = suc (suc (suc (suc (suc (suc (suc (suc (suc k))))))))

pub record Machine : Type 0 where
  pub state : RedisState
  pub rc : Connection

-- How the loop is left before its end: `goto done` with the position, and whether the byte there is
-- overwritten with a zero; or a `return`.
pub data Exit : Type 0 where
  done : Connection → Ptr → Bool → Exit
  fail : Code → Connection → Exit

abbrev pub go : RedisState → Connection → Ptr → Round Machine Exit
go s rc p = next (record { state = s; rc = rc }) p

abbrev is_digit : ℕ → Bool
is_digit ch = leb b'0' ch && leb ch b'9'

-- `rc->number[rc->number_index] = ch`. The code does not ask for room: behind the array it writes into
-- what follows in the struct, after which C promises nothing, and the run ends with `overrun`.
abbrev write_number : ℕ → Connection → (Connection → Round Machine Exit) → Round Machine Exit
write_number ch rc k =
    if ltb rc.number_index 20
    then k (record rc { number = set rc.number rc.number_index ch })
    else stop (fail overrun rc)

-- The digits read so far.
abbrev pub digits : Connection → Bytes
digits rc = take rc.number_index rc.number

-- case sw_start
unfoldable pub step_start : Mem → Connection → Ptr → Round Machine Exit
step_start mem rc p =
    if mem p == b'-'
    then go error (record rc { error = true; error_start = p + 1 }) p
    else if mem p == b'*'
    then go subscribe rc p
    else stop (fail invalid_message rc)

-- case sw_error
unfoldable pub step_error : Mem → Connection → Ptr → Round Machine Exit
step_error mem rc p =
    if mem p == cr
    then go error (record rc { after_cr = true }) p
    else if mem p == lf && rc.after_cr
    then stop (done (record rc { after_cr = false; error_end = p }) p true)
    else go error (record rc { after_cr = false }) p

-- case sw_subscribe
unfoldable pub step_subscribe : Mem → Connection → Ptr → Round Machine Exit
step_subscribe mem rc p =
    if starts_with mem p subscribe_reply
    then go subscribe_channel_length (record rc { number_index = 0 })
        (p + length subscribe_reply - 1)
    else stop (fail invalid_subscribe rc)

-- A digit, in the two states that read a length.
unfoldable pub step_digit : RedisState → Mem → Connection → Ptr → Round Machine Exit
step_digit s mem rc p =
    if is_digit (mem p)
    then write_number (mem p) (record rc { after_cr = false })
        (λ rc. go s (record rc { number_index = suc (rc.number_index) }) p)
    else stop (fail invalid_length (record rc { after_cr = false }))

-- The end of the length of the channel's name.
unfoldable pub channel_length_end : Connection → Ptr → Round Machine Exit
channel_length_end rc p =
    write_number 0 (record rc { after_cr = false })
      (λ rc.
        let n = atoi (digits rc) in
        if not_positive n
        then stop (fail invalid_channel_name (record rc { number_length = n }))
        else if above n 20
        then stop (fail invalid_channel_name (record rc { number_length = n }))
        else go subscribe_channel_name
            (record rc { number_length = n; channel_name_length = n; channel_name_index = 0 }) p)

-- case sw_subscribe_channel_length
unfoldable pub step_channel_length : Mem → Connection → Ptr → Round Machine Exit
unfolding step_digit channel_length_end
step_channel_length mem rc p =
    if mem p == cr
    then go subscribe_channel_length (record rc { after_cr = true }) p
    else if mem p == lf && rc.after_cr
    then channel_length_end rc p
    else step_digit subscribe_channel_length mem rc p

-- The end of the channel's name. Its index is below 21 here.
unfoldable pub channel_name_ended : Connection → Ptr → Round Machine Exit
channel_name_ended rc p =
    let name = set rc.channel_name rc.channel_name_index 0 in
    let n = rc.channel_name_length in
    let rc0 = record rc { after_cr = false; channel_name = name } in
    if n == strlen name
    then go subscribe_channel_client
        (record rc0 { channel_message_prefix = message_prefix n (take (strlen name) name) }) p
    else stop (fail invalid_channel_name rc0)

-- case sw_subscribe_channel_name
unfoldable pub step_channel_name : Mem → Connection → Ptr → Round Machine Exit
unfolding channel_name_ended
step_channel_name mem rc p =
    if mem p == cr
    then go subscribe_channel_name (record rc { after_cr = true }) p
    else if mem p == lf && rc.after_cr
    then channel_name_ended rc p
    else if leb rc.channel_name_length rc.channel_name_index
    then stop (fail invalid_channel_name (record rc { after_cr = false }))
    else go subscribe_channel_name
        (record rc {
          after_cr = false;
          channel_name = set rc.channel_name rc.channel_name_index (mem p);
          channel_name_index = suc (rc.channel_name_index);
        })
        p

-- case sw_subscribe_channel_clinet
unfoldable pub step_channel_client : Mem → Connection → Ptr → Round Machine Exit
step_channel_client mem rc p =
    if mem p == b':'
    then go subscribe_channel_client rc p
    else if mem p == cr
    then go subscribe_channel_client (record rc { after_cr = true }) p
    else if mem p == lf && rc.after_cr
    then go message (record rc { after_cr = false }) p
    else if is_digit (mem p)
    then go subscribe_channel_client (record rc { after_cr = false }) p
    else stop (fail invalid_message (record rc { after_cr = false }))

-- case sw_message_length. The flag `after_cr` stays set behind the end of the line.
unfoldable pub step_message_length : Mem → Connection → Ptr → Round Machine Exit
unfolding step_digit
step_message_length mem rc p =
    if mem p == cr
    then go message_length (record rc { after_cr = true }) p
    else if mem p == lf && rc.after_cr
    then write_number 0 rc (λ rc.
      let n = atoi (digits rc) in
      if above n 256
      then stop (fail invalid_message (record rc { message_length = n }))
      else go message_value (record rc { message_length = n; message_start = p + 1 }) p)
    else step_digit message_length mem rc p

-- case sw_message. Without a prefix, which no subscription has set, the position goes back by one:
-- the next round reads the same byte in the next state.
unfoldable pub step_message : Mem → Connection → Ptr → Round Machine Exit
unfolding step_message_length
step_message mem rc p =
    let n = length rc.channel_message_prefix in
    if n == 0
    then step_message_length mem (record rc { number_index = 0 }) p
    else if starts_with mem p rc.channel_message_prefix
    then go message_length (record rc { number_index = 0 }) (p + n - 1)
    else stop (fail invalid_message rc)

-- case sw_message_value
unfoldable pub step_message_value : Mem → Connection → Ptr → Round Machine Exit
step_message_value mem rc p =
    if not (rc.message_length == 0)
    then go message_value
        (record rc { message_length = (rc.message_length + (2 ^ 32 - 1)) % 2 ^ 32 }) p
    else if mem p == cr
    then go message_value (record rc { after_cr = true }) p
    else if mem p == lf && rc.after_cr
    then stop (done (record rc { after_cr = false; message_end = p - 1 }) p false)
    else go message_value (record rc { after_cr = false }) p

-- One round of the switch.
unfoldable pub step_in : RedisState → Mem → Connection → Ptr → Round Machine Exit
unfolding step_start step_error step_subscribe step_channel_length step_channel_name
    step_channel_client step_message step_message_length step_message_value
step_in start mem rc p = step_start mem rc p
step_in error mem rc p = step_error mem rc p
step_in subscribe mem rc p = step_subscribe mem rc p
step_in subscribe_channel_length mem rc p = step_channel_length mem rc p
step_in subscribe_channel_name mem rc p = step_channel_name mem rc p
step_in subscribe_channel_client mem rc p = step_channel_client mem rc p
step_in message mem rc p = step_message mem rc p
step_in message_length mem rc p = step_message_length mem rc p
step_in message_value mem rc p = step_message_value mem rc p
step_in (other k) mem rc p = go (other k) rc p

abbrev pub step : Mem → Machine → Ptr → Round Machine Exit
step mem m p = step_in m.state mem (record (m.rc) { parse_done = false }) p

-- What a call leaves. `mem` is memory behind it.
pub record Reply : Type 0 where
  pub code : Code
  pub rc : Connection
  pub buf : Buf
  pub mem : Mem

-- What stands behind the loop. A `return` inside it saves neither the state nor the position.
unfoldable pub finish : Mem → Buf → Round Machine Exit → Reply
finish mem b (next m p) = record {
  code = again;
  rc = record (m.rc) { state = index_of m.state };
  buf = record b { pos = p };
  mem = mem;
}
finish mem b (stop (fail c rc)) = record { code = c; rc = rc; buf = b; mem = mem }
finish mem b (stop (done rc p ended)) = record {
  code = ok;
  rc = record rc { state = 5 };
  buf = record b { pos = p + 1 };
  mem = λ q. if ended && q == p then 0 else mem q;
}

unfoldable pub parse_message : Mem → Connection → Buf → Reply
parse_message mem rc b =
    finish mem b (scan (step mem) b.last (record { state = state_at rc.state; rc = rc }) b.pos)
