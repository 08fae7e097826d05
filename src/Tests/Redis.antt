-- ===== src/Tests/Redis.antt =====
-- A subscription to the channel "c1", and a message on it.
use nginx_comment.Common.{
  ◌+◌, ◌-◌, ◌≡◌, ◌⊎◌, refl, false, [], ◌∷◌, ◌++◌, arith, get_or, length, replicate, Bytes, Mem,
  codes,
}
use nginx_comment.Common.Scan.{loop, scan}
use nginx_comment.Redis.Connection.{
  overrun, Connection, atoi_from, starts_with, strlen, message_prefix,
}
use nginx_comment.Redis.Parser.{
  state_at, index_of, finish, step_in, step_start, step_subscribe, step_channel_length,
  step_channel_name, step_channel_client, step_digit, channel_length_end, channel_name_ended,
  parse_message,
}
use nginx_comment.Redis.Bounds.{Inside, Overruns, parse_message-Inside}
use nginx_comment.Redis.Complete.{
  message_text, MessageRead, parse_message_complete, parse_message_overruns,
}

-- A connection as `ngx_pcalloc` leaves it.
abbrev fresh : Connection
fresh = record {
  state = 0;
  message_start = 0;
  message_end = 0;
  error_start = 0;
  error_end = 0;
  message_length = 0;
  channel_name_length = 0;
  channel_name_index = 0;
  channel_name = replicate 21 0;
  channel_message_prefix = [];
  number_length = 0;
  number = replicate 20 0;
  number_index = 0;
  error = false;
  after_cr = false;
  parse_done = false;
}

abbrev reply : Bytes
reply = codes "*3\r\n$9\r\nsubscribe\r\n$2\r\nc1\r\n:1\r\n"

abbrev reply_mem : Mem
reply_mem p = get_or reply (p - 8) 0

-- The reply to the subscription is read, and the parser waits for messages.
subscription_read :
    (parse_message reply_mem fresh (record { pos = 8; last = 8 + length reply })).rc
    ≡ record fresh {
      state = 5;
      channel_name_length = 2;
      channel_name_index = 2;
      channel_name = b'c' ∷ b'1' ∷ replicate 19 0;
      channel_message_prefix = codes "*3\r\n$7\r\nmessage\r\n$2\r\nc1\r\n$";
      number_length = 2;
      number = b'2' ∷ replicate 19 0;
      number_index = 1;
    }
unfolding parse_message finish scan loop state_at index_of step_in step_start step_subscribe
    step_channel_length step_channel_name step_channel_client step_digit channel_length_end
    channel_name_ended starts_with strlen message_prefix atoi_from
subscription_read = refl

abbrev waiting : Connection
waiting = record fresh {
  state = 5;
  channel_name_length = 2;
  channel_message_prefix = codes "*3\r\n$7\r\nmessage\r\n$2\r\nc1\r\n$";
}

abbrev mem : Mem
mem p = get_or (message_text waiting (codes "5") (codes "a\r\nbc")) (p - 8) 0

parse_message_complete_example :
    MessageRead (parse_message mem waiting (record { pos = 8; last = 60 })) waiting 37 5
unfolding atoi_from
parse_message_complete_example =
    parse_message_complete mem waiting (record { pos = 8; last = 60 }) (codes "5") (codes "a\r\nbc")
      refl (omega arith) (omega arith) refl (omega arith) (omega arith) refl (omega arith)
      (omega arith)

parse_message-Inside_example :
    Overruns
      (parse_message reply_mem fresh (record { pos = 8; last = 30 })).code
      (parse_message reply_mem fresh (record { pos = 8; last = 30 })).rc
    ⊎ Inside (parse_message reply_mem fresh (record { pos = 8; last = 30 })).rc
parse_message-Inside_example =
    parse_message-Inside reply_mem fresh (record { pos = 8; last = 30 }) (omega arith)

abbrev many_digits : Bytes
many_digits = replicate 20 b'7'

abbrev digit_mem : Mem
digit_mem p = get_or (many_digits ++ b'7' ∷ []) (p - 8) 0

parse_message_overruns_example :
    (parse_message digit_mem (record waiting { state = 6 }) (record { pos = 8; last = 30 })).code
    ≡ overrun
parse_message_overruns_example =
    parse_message_overruns digit_mem (record waiting { state = 6 }) (record { pos = 8; last = 30 })
      many_digits b'7' refl refl (omega arith) (omega arith) refl (omega arith) (omega arith)
      (omega arith)
