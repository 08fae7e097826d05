-- ===== src/Connection/Send.antt =====
-- `ngx_unix_send`, whatever the number of interruptions.
use mathlib.Core.List.{append-nil}
use nginx_comment.Common.{ℕ, zero, suc, ◌≡◌, refl, sym, false, true, ◌++◌, take, Bytes}
use nginx_comment.Connection.{
  Sys, taken, unavailable, broken, SendResult, again, failed, sent, Connection, unix_send,
}

abbrev pub result_of : Sys → SendResult
result_of (taken n) = sent n
result_of unavailable = again
result_of broken = failed

abbrev pub moved : Sys → ℕ
moved (taken n) = n
moved unavailable = 0
moved broken = 0

-- What a send returns and writes, by the system's answer, and what it leaves alone.
pub send_lem :
    (i : ℕ) (last : Sys) (bytes : Bytes) (c : Connection)
    → (d : Connection) × (unix_send i last bytes c ≡ (result_of last, d))
      × (d.wire ≡ c.wire ++ take (moved last) bytes)
      × (d.is_open ≡ c.is_open)
      × (d.close ≡ c.close)
      × (d.wev_timedout ≡ c.wev_timedout)
      × (d.error ≡ c.error)
unfolding unix_send
send_lem (suc i) last bytes c = send_lem i last bytes (record c { wev_ready = false })
send_lem zero (taken zero) bytes c =
    (record c { wev_ready = false }, refl, sym (append-nil (c.wire)), refl, refl, refl, refl)
send_lem zero (taken (suc n)) bytes c =
    ((unix_send zero (taken (suc n)) bytes c).1, refl, refl, refl, refl, refl, refl)
send_lem zero unavailable bytes c =
    (record c { wev_ready = false }, refl, sym (append-nil (c.wire)), refl, refl, refl, refl)
send_lem zero broken bytes c =
    (record c { wev_error = true }, refl, sym (append-nil (c.wire)), refl, refl, refl, refl)
