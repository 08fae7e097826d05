-- ===== src/Redis/Steps.antt =====
-- The rounds of the redis parser go forward, and a state is read back as it was saved.
use nginx_comment.Common.{zero, suc, ◌≤◌, ◌≡◌, refl, ap, arith, Ptr, Mem}
use nginx_comment.Common.Scan.{next, Advances}
use nginx_comment.Redis.Connection.{Connection}
use nginx_comment.Redis.Parser.{
  RedisState, start, other, succeeding, state_at, index_of, Machine, step_start, step_error,
  step_subscribe, step_channel_length, step_channel_name, step_channel_client, step_message,
  step_message_length, step_message_value, step_digit, channel_length_end, channel_name_ended,
  step_in, step,
}

pub state_at-index_of : (s : RedisState) → state_at (index_of s) ≡ s
unfolding state_at index_of
state_at-index_of (other zero) = refl
state_at-index_of (other (suc k)) = ap succeeding (state_at-index_of (other k))
state_at-index_of start = refl
state_at-index_of _ = refl

step_in_advances :
    (s : RedisState) (mem : Mem) (rc : Connection) (p q : Ptr) (m : Machine)
    → step_in s mem rc p ≡ next m q
    → p ≤ q
unfolding step_in step_start step_error step_subscribe step_channel_length step_channel_name
    step_channel_client step_message step_message_length step_message_value step_digit
    channel_length_end channel_name_ended
step_in_advances start mem rc p q m e = ground arith
step_in_advances _ mem rc p q m e = ground arith

pub step_advances : (mem : Mem) → Advances (step mem)
step_advances mem m m' p q = step_in_advances m.state mem _ p q m'
