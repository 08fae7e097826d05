-- ===== src/Redis/Complete.antt =====
-- A message that is whole is read as redis means it.
use nginx_comment.Common.{
  ℕ, ◌+◌, ◌≤◌, ◌<◌, ◌≡◌, refl, sym, ap, ◌∙◌, false, [], ◌∷◌, ◌++◌, arith, length, Bytes, Ptr, Mem,
  At, At-append,
}
use nginx_comment.Common.Scan.{stop, scan, scan_stop, scan_round}
use nginx_comment.Http.Request.{Buf, cr, lf}
use nginx_comment.Redis.Connection.{ok, overrun, Connection, atoi, atoi_from}
use nginx_comment.Redis.Parser.{
  message, message_length, step_in, step_message_length, step_digit, state_at, done, fail, digits,
  step, Reply, finish, parse_message,
}
use nginx_comment.Redis.Steps.{step_advances}
use nginx_comment.Redis.Message.{
  DigitBytes, at, stored, Kept, digits-stored, stored-Kept, read_digits, read_bytes, read_prefix,
  lined, read_line_end, read_end,
}

-- What is known of a message that was read from `p`: the code, the message's ends, the position
-- behind it, and that the parser waits for the next one with the same prefix.
pub record MessageRead (x : Reply) (rc : Connection) (p n : ℕ) : Type 0 where
  pub code : x.code ≡ ok
  pub message_start : x.rc.message_start ≡ p
  pub message_end : x.rc.message_end ≡ p + n
  pub pos : x.buf.pos ≡ p + n + 2
  pub state : x.rc.state ≡ 5
  pub prefix : x.rc.channel_message_prefix ≡ rc.channel_message_prefix

-- A message as redis writes it: the prefix with the channel, the length, and the bytes.
abbrev pub message_text : Connection → Bytes → Bytes → Bytes
message_text rc ds vs =
    rc.channel_message_prefix ++ (ds ++ ((cr ∷ lf ∷ []) ++ (vs ++ (cr ∷ lf ∷ []))))

module _ (mem : Mem) (rc : Connection) (last : ℕ) (ds vs : Bytes) where
  -- The connection behind the length.
  counted : Connection
  counted = stored (record rc { number_index = 0 }) ds

  counted-value : length rc.number ≡ 20 → length ds < 20 → atoi (digits counted) ≡ atoi ds
  unfolding counted
  counted-value n h =
      ap (atoi_from 0) (digits-stored (record rc { number_index = 0 }) ds n (omega arith))

  counted-Kept : Kept (record rc { number_index = 0 }) counted (length ds)
  unfolding counted
  counted-Kept = stored-Kept (record rc { number_index = 0 }) ds

  -- The connection behind the message, where the line with its length ends at `p`.
  received : Ptr → Connection
  received p = record (lined mem last counted p) {
    message_length = 0;
    parse_done = false;
    after_cr = false;
    message_end = p + 2 + length vs;
  }

  read_message :
      (p : Ptr)
      → At mem p (message_text rc ds vs)
      → 0 < length rc.channel_message_prefix
      → length rc.number ≡ 20
      → DigitBytes ds
      → length ds < 20
      → atoi ds ≡ length vs
      → length vs ≤ 256
      → p + length rc.channel_message_prefix + length ds + length vs + 4 ≤ last
      → scan (step mem) last (record { state = message; rc = rc }) p
        ≡ stop (
            done
              (received (p + length rc.channel_message_prefix + length ds))
              (p + length rc.channel_message_prefix + length ds + 2 + length vs + 1)
              false)
  unfolding counted received lined
  read_message p a some n dg short value le h =
      let p1 = p + length rc.channel_message_prefix in
      let p2 = p1 + length ds in
      let (a1, r1) = At-append mem p rc.channel_message_prefix _ a in
      let (a2, r2) = At-append mem p1 ds _ r1 in
      let (a3, r3) = At-append mem p2 (cr ∷ lf ∷ []) _ r2 in
      let (a4, r4) = At-append mem (p2 + 2) vs _ r3 in
      let v = counted-value n short ∙ value in
      let k = counted-Kept in
      read_prefix mem last rc rc.parse_done p a1 some (omega arith)
      ∙ read_digits mem last ds (record rc { number_index = 0 }) p1 a2 dg (omega arith)
          (omega arith)
      ∙ read_line_end mem last counted p2 a3 (omega (arith, k.index)) (omega (arith, v))
          (omega arith)
      ∙ read_bytes mem last (length vs) (lined mem last counted p2) (p2 + 2) v le (omega arith)
      ∙ read_end mem last (record (lined mem last counted p2) { message_length = 0 })
          (p2 + 2 + length vs) r4 refl (omega arith)

message_state : (n : ℕ) → n ≡ 5 → state_at n ≡ message
unfolding state_at
message_state n e = rw e refl

length_state : (n : ℕ) → n ≡ 6 → state_at n ≡ message_length
unfolding state_at
length_state n e = rw e refl

-- Where the parser waits for a message and the buffer holds the prefix of the subscription, at most
-- 19 digits that give the length of some bytes, at most 256 of them, the end of the line, the bytes,
-- whatever they are, and another end of the line, the message is accepted: its two ends are noted
-- and the position stands behind it.
pub parse_message_complete :
    (mem : Mem) (rc : Connection) (b : Buf) (ds vs : Bytes)
    → rc.state ≡ 5
    → At mem b.pos (message_text rc ds vs)
    → 0 < length rc.channel_message_prefix
    → length rc.number ≡ 20
    → DigitBytes ds
    → length ds < 20
    → atoi ds ≡ length vs
    → length vs ≤ 256
    → b.pos + length rc.channel_message_prefix + length ds + length vs + 4 ≤ b.last
    → MessageRead
        (parse_message mem rc b)
        rc
        (b.pos + length rc.channel_message_prefix + length ds + 2)
        (length vs)
unfolding parse_message finish received lined
parse_message_complete mem rc b ds vs s a some n dg short value le h =
    rw
      (
        message_state rc.state s,
        read_message mem rc b.last ds vs b.pos a some n dg short value le h,
      )
      (record {
        code = refl;
        message_start = omega arith;
        message_end = refl;
        pos = omega arith;
        state = refl;
        prefix = (counted-Kept mem rc b.last ds vs).prefix;
      })

quiet :
    (mem : Mem) (last : ℕ) (rc : Connection) (p : Ptr)
    → p < last
    → scan (step mem) last (record { state = message_length; rc = rc }) p
      ≡ scan (step mem) last (at message_length rc) p
quiet mem last rc p h =
    scan_round (step mem) (step_advances mem) last _ p h
    ∙ sym (scan_round (step mem) (step_advances mem) last (at message_length rc) p h)

one_too_many :
    (mem : Mem) (last : ℕ) (rc : Connection) (p : Ptr) {d : ℕ}
    → mem p ≡ d
    → b'0' ≤ d
    → d ≤ b'9'
    → rc.number_index ≡ 20
    → p < last
    → scan (step mem) last (at message_length rc) p
      ≡ stop (fail overrun (record rc { parse_done = false; after_cr = false }))
unfolding step_in step_message_length step_digit
one_too_many mem last rc p e lo hi full h =
    scan_stop (step mem) (step_advances mem) last _ p _ h (ground arith)

-- The digits of a length are stored without a look at the size of their array: where the parser reads
-- the length of a message, 21 digits in a row make it write behind the 20 bytes of `number`.
pub parse_message_overruns :
    (mem : Mem) (rc : Connection) (b : Buf) (ds : Bytes) (d : ℕ)
    → rc.state ≡ 6
    → rc.number_index ≡ 0
    → At mem b.pos (ds ++ d ∷ [])
    → DigitBytes ds
    → length ds ≡ 20
    → b'0' ≤ d
    → d ≤ b'9'
    → b.pos + 21 ≤ b.last
    → (parse_message mem rc b).code ≡ overrun
unfolding parse_message finish
parse_message_overruns mem rc b ds d s z a dg full lo hi h =
    let (x, y) = At-append mem b.pos ds (d ∷ []) a in
    rw
      (
        length_state rc.state s,
        quiet mem b.last rc b.pos (omega arith),
        read_digits mem b.last ds rc b.pos x dg (omega arith) (omega arith),
        one_too_many mem b.last (stored rc ds) (b.pos + length ds) (y.0) lo hi
            (omega (arith, (stored-Kept rc ds).index)) (omega arith),
      )
      refl
