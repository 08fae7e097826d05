-- ===== src/Connection.antt =====
-- demo/src/core/ngx_connection.h: what the writers use of a connection and of its write event, with
-- `ngx_unix_send` of demo/src/os/unix/ngx_send.c.
pub mod Send
pub mod Table
use nginx_comment.Common.{
  ℕ, zero, suc, ◌+◌, Bool, true, false, ◌++◌, ltb, if◌then◌else◌, length, take, Bytes,
}

-- What the system call `send` returns: a number of bytes taken, or -1 with EAGAIN or with another
-- error.
pub data Sys : Type 0 where
  taken : ℕ → Sys
  unavailable broken : Sys

-- The system's part in one round of the writer: how often `send` is interrupted (EINTR), how it then
-- ends, and whether `ngx_handle_write_event` returns NGX_OK, where it is called.
pub record Answer : Type 0 where
  pub interruptions : ℕ
  pub last : Sys
  pub rearmed : Bool

-- What `c->send` returns: NGX_AGAIN, NGX_ERROR or a number of bytes.
pub data SendResult : Type 0 where
  again failed : SendResult
  sent : ℕ → SendResult

-- The fields of `ngx_connection_t`, with `wev_` those of its write event. `is_open` is whether
-- `ngx_close_connection` was not called, and `wire` what the system has taken.
pub record Connection : Type 0 where
  pub wev_timedout : Bool
  pub wev_ready : Bool
  pub wev_error : Bool
  pub timer_set : Bool
  pub timedout : Bool
  pub error : Bool
  pub close : Bool
  pub destroyed : Bool
  pub reusable : Bool
  pub is_open : Bool
  pub sent_bytes : ℕ
  pub wire : Bytes

-- `ngx_unix_send`
unfoldable pub unix_send : ℕ → Sys → Bytes → Connection → SendResult × Connection
unix_send (suc interruptions) last bytes c =
    unix_send interruptions last bytes (record c { wev_ready = false })
unix_send zero (taken zero) bytes c = (sent 0, record c { wev_ready = false })
unix_send zero (taken (suc n)) bytes c = (
  sent (suc n),
  record c {
    wev_ready = if ltb (suc n) (length bytes) then false else c.wev_ready;
    sent_bytes = c.sent_bytes + suc n;
    wire = c.wire ++ take (suc n) bytes;
  },
)
unix_send zero unavailable bytes c = (again, record c { wev_ready = false })
unix_send zero broken bytes c = (failed, record c { wev_error = true })

-- `ngx_reusable_connection(c, 1)` where no timer is set
abbrev pub wanting : Connection → Connection
wanting c = record c { reusable = if c.timer_set then c.reusable else true }

-- `ngx_http_close_connection`
unfoldable pub close_connection : Connection → Connection
close_connection c = record c { destroyed = true; is_open = false }
