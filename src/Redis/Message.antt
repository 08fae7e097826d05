-- ===== src/Redis/Message.antt =====
-- What the redis parser reads of a message that is whole.
use mathlib.Core.List.{append_assoc, append-nil}
use nginx_comment.Common.{
  ℕ, zero, suc, ◌+◌, ◌-◌, ◌%◌, ◌^◌, ◌≤◌, ◌<◌, ◌≡◌, refl, sym, ap, ◌∙◌, Bool, true, false, [], ◌∷◌,
  ◌++◌, arith, set, take, length, length-set, Bytes, Ptr, Mem, At,
}
use nginx_comment.Common.Scan.{next, stop, scan, scan_next, scan_stop}
use nginx_comment.Http.Request.{cr, lf}
use nginx_comment.Redis.Connection.{Connection, atoi, atoi_from, starts_with}
use nginx_comment.Redis.Parser.{
  RedisState, message, message_length, message_value, Machine, done, digits, step_message,
  step_message_length, step_message_value, step_digit, step_in, step,
}
use nginx_comment.Redis.Steps.{step_advances}

-- Digits only.
abbrev pub DigitBytes : Bytes → Type 0
DigitBytes [] = Unit
DigitBytes (c ∷ cs) = (b'0' ≤ c) × (c ≤ b'9') × DigitBytes cs

-- The machine in a state, with `parse_done` clear.
abbrev pub at : RedisState → Connection → Machine
at s rc = record { state = s; rc = record rc { parse_done = false } }

-- The connection behind some digits.
abbrev pub stored : Connection → Bytes → Connection
stored rc [] = rc
stored rc (c ∷ cs) =
    stored
      (record rc {
        after_cr = false;
        number = set rc.number rc.number_index c;
        number_index = suc (rc.number_index);
      })
      cs

take-set : (xs : Bytes) (i v : ℕ) → i < length xs → take (suc i) (set xs i v) ≡ take i xs ++ v ∷ []
take-set [] i v h = elim h [ ]
take-set (x ∷ xs) zero v h = refl
take-set (x ∷ xs) (suc i) v h = ap (◌∷◌ x) (take-set xs i v (omega arith))

pub digits-stored :
    (rc : Connection) (cs : Bytes)
    → length rc.number ≡ 20
    → rc.number_index + length cs ≤ 20
    → digits (stored rc cs) ≡ digits rc ++ cs
digits-stored rc [] n h = sym (append-nil (digits rc))
digits-stored rc (c ∷ cs) n h =
    digits-stored (stored rc (c ∷ [])) cs (length-set rc.number rc.number_index c ∙ n) (omega arith)
    ∙ ap (λ x. x ++ cs) (take-set rc.number rc.number_index c (omega arith))
    ∙ append_assoc (digits rc) (c ∷ []) cs

take-set_same : (xs : Bytes) (i v : ℕ) → take i (set xs i v) ≡ take i xs
take-set_same [] i v = refl
take-set_same (x ∷ xs) zero v = refl
take-set_same (x ∷ xs) (suc i) v = ap (◌∷◌ x) (take-set_same xs i v)

-- The fields that the digits leave, and the index behind them.
pub record Kept (rc rc' : Connection) (n : ℕ) : Type 0 where
  pub prefix : rc'.channel_message_prefix ≡ rc.channel_message_prefix
  pub index : rc'.number_index ≡ rc.number_index + n

pub stored-Kept : (rc : Connection) (cs : Bytes) → Kept rc (stored rc cs) (length cs)
stored-Kept rc [] = record { prefix = refl; index = omega arith }
stored-Kept rc (c ∷ cs) =
    let k = stored-Kept (stored rc (c ∷ [])) cs in
    record { prefix = k.prefix; index = omega (arith, k.index) }

starts_with-At : (mem : Mem) (p : Ptr) (bs : Bytes) → At mem p bs → starts_with mem p bs ≡ true
unfolding starts_with
starts_with-At mem p [] h = refl
starts_with-At mem p (b ∷ bs) h = ground (arith, starts_with-At mem (p + 1) bs)

module _ (mem : Mem) (last : ℕ) where
  one_digit :
      (rc : Connection) (p : Ptr) (c : ℕ)
      → mem p ≡ c
      → b'0' ≤ c
      → c ≤ b'9'
      → rc.number_index < 20
      → step mem (at message_length rc) p ≡ next (at message_length (stored rc (c ∷ []))) p
  unfolding step_in step_message_length step_digit
  one_digit rc p c e h k lt = ground arith

  pub read_digits :
      (cs : Bytes) (rc : Connection) (p : Ptr)
      → At mem p cs
      → DigitBytes cs
      → rc.number_index + length cs ≤ 20
      → p + length cs ≤ last
      → scan (step mem) last (at message_length rc) p
        ≡ scan (step mem) last (at message_length (stored rc cs)) (p + length cs)
  read_digits [] rc p a d h k = ap (scan (step mem) last (at message_length rc)) (omega arith)
  read_digits (c ∷ cs) rc p a d h k =
      scan_next (step mem) (step_advances mem) last _ _ p p (omega arith)
        (one_digit rc p c a.0 d.0 d.1 (omega arith))
      ∙ read_digits cs (stored rc (c ∷ [])) (p + 1) a.1 d.2 (omega arith) (omega arith)
      ∙ ap (scan (step mem) last (at message_length (stored rc (c ∷ cs)))) (omega arith)

  -- A byte of the message.
  one_byte :
      (rc : Connection) (p n : ℕ)
      → rc.message_length ≡ suc n
      → n < 256
      → step mem (at message_value rc) p
        ≡ next (at message_value (record rc { message_length = n })) p
  unfolding step_in step_message_value
  one_byte rc p n e h =
      let w : (suc n + (2 ^ 32 - 1)) % 2 ^ 32 ≡ n = omega arith in
      rw (step_message_value, e, w) (ground arith)

  pub read_bytes :
      (n : ℕ) (rc : Connection) (p : Ptr)
      → rc.message_length ≡ n
      → n ≤ 256
      → p + n ≤ last
      → scan (step mem) last (at message_value rc) p
        ≡ scan (step mem) last (at message_value (record rc { message_length = 0 })) (p + n)
  read_bytes zero rc p e h k =
      ap (λ n. scan (step mem) last (at message_value (record rc { message_length = n })) p) e
      ∙ ap (scan (step mem) last (at message_value (record rc { message_length = 0 })))
          (omega arith)
  read_bytes (suc n) rc p e h k =
      scan_next (step mem) (step_advances mem) last _ _ p p (omega arith) (one_byte rc p n e h)
      ∙ read_bytes n (record rc { message_length = n }) (p + 1) refl (omega arith) (omega arith)
      ∙ ap (scan (step mem) last (at message_value (record rc { message_length = 0 })))
          (omega arith)

  -- The prefix of a message, and the line that ends its length.
  pub read_prefix :
      (rc : Connection) (d : Bool) (p : Ptr)
      → At mem p rc.channel_message_prefix
      → 0 < length rc.channel_message_prefix
      → p + length rc.channel_message_prefix ≤ last
      → scan (step mem) last (record { state = message; rc = record rc { parse_done = d } }) p
        ≡ scan
            (step mem)
            last
            (at message_length (record rc { number_index = 0 }))
            (p + length rc.channel_message_prefix)
  unfolding step_in step_message
  read_prefix rc d p a some h =
      scan_next (step mem) (step_advances mem) last _
        (at message_length (record rc { number_index = 0 })) p
        (p + length rc.channel_message_prefix - 1) (omega arith)
        (ground (arith, starts_with-At mem p rc.channel_message_prefix a))
      ∙ ap (scan (step mem) last (at message_length (record rc { number_index = 0 }))) (omega arith)

  -- The connection behind the end of the line, at `p`.
  unfoldable pub lined : Connection → Ptr → Connection
  lined rc p = record rc {
    after_cr = true;
    number = set rc.number rc.number_index 0;
    message_length = atoi (digits rc);
    message_start = p + 2;
  }

  pub read_line_end :
      (rc : Connection) (p : Ptr)
      → At mem p (cr ∷ lf ∷ [])
      → rc.number_index < 20
      → atoi (digits rc) ≤ 256
      → p + 2 ≤ last
      → scan (step mem) last (at message_length rc) p
        ≡ scan (step mem) last (at message_value (lined rc p)) (p + 2)
  unfolding step_in step_message_length lined
  read_line_end rc p a lt le h =
      scan_next (step mem) (step_advances mem) last _
        (at message_length (record rc { after_cr = true })) p p (omega arith) (ground arith)
      ∙ scan_next (step mem) (step_advances mem) last _ (at message_value (lined rc p)) (p + 1)
          (p + 1) (omega arith)
          (ground (arith, ap (atoi_from 0) (take-set_same rc.number rc.number_index 0)))
      ∙ ap (scan (step mem) last (at message_value (lined rc p))) (omega arith)

  -- The end of the message, at `p`.
  pub read_end :
      (rc : Connection) (p : Ptr)
      → At mem p (cr ∷ lf ∷ [])
      → rc.message_length ≡ 0
      → p + 2 ≤ last
      → scan (step mem) last (at message_value rc) p
        ≡ stop (
            done
              (record rc { parse_done = false; after_cr = false; message_end = p })
              (p + 1)
              false)
  unfolding step_in step_message_value
  read_end rc p a e h =
      scan_next (step mem) (step_advances mem) last _
        (at message_value (record rc { after_cr = true })) p p (omega arith) (ground arith)
      ∙ scan_stop (step mem) (step_advances mem) last _ (p + 1) _ (omega arith) (ground arith)
