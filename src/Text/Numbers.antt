-- ===== src/Text/Numbers.antt =====
-- A number that is printed stays within the room that there is, and can be read back.
use Prim.Native.Nat.{min, max}
use nginx_comment.Common.{
  ℕ, zero, suc, ◌+◌, ◌-◌, ◌*◌, ◌/◌, ◌%◌, ◌^◌, ◌≤◌, ◌<◌, ◌≡◌, refl, ap, ◌∙◌, [], ◌∷◌, ◌++◌, arith,
  ◌==◌, ==_iff, Bool-cases, inl, inr, length, replicate, take, length-append, length-take,
  length-replicate, Bytes,
}
use nginx_comment.Text.{decimal_digits, int64_len, number_text, sprintf_num}

-- Whatever the number, the width and the base, `ngx_sprintf_num` writes as many bytes as the longer
-- of its text and the width asks for, and never more than there is room for.
pub length-sprintf_num :
    (room n fill hexadecimal width : ℕ)
    → length (sprintf_num room n fill hexadecimal width)
      ≡ min room (max width (length (number_text hexadecimal n)))
unfolding sprintf_num
length-sprintf_num room n fill hexadecimal width =
    let text = number_text hexadecimal n in
    let padding = min (width - length text) room in
    omega (
      arith,
      length-append (replicate padding fill) (take (room - padding) text),
      length-replicate {A = ℕ} padding fill,
      length-take (room - padding) text,
    )

-- The number that decimal digits stand for, behind those that have been read.
abbrev pub read : ℕ → Bytes → ℕ
read v [] = v
read v (c ∷ cs) = read (v * 10 + (c - b'0')) cs

abbrev pow10 : ℕ → ℕ
pow10 zero = 1
pow10 (suc k) = 10 * pow10 k

read-decimal_digits :
    (room n : ℕ) (temp : Bytes) → n < pow10 room → read 0 (decimal_digits room n temp) ≡ read n temp
unfolding decimal_digits
read-decimal_digits zero n temp h = ap (λ v. read v temp) {x = 0} {y = n} (omega arith)
read-decimal_digits (suc room) n temp h =
    let d : n % 10 + b'0' - b'0' ≡ n % 10 = omega arith in
    let e : n / 10 * 10 + (n % 10 + b'0' - b'0') ≡ n = omega arith in
    let ih =
      read-decimal_digits room (n / 10) ((n % 10 + b'0') ∷ temp) (omega arith)
      ∙ ap (λ v. read v temp) e in
    elim (Bool-cases (n / 10 == 0)) [
      | inl t ↦
          rw (decimal_digits, t) (ap (λ v. read v temp) (omega (arith, (==_iff (n / 10) 0).0 t)))
      | inr t ↦ rw (decimal_digits, t) ih
    ]

read-zeros : (k : ℕ) (cs : Bytes) → read 0 (replicate k b'0' ++ cs) ≡ read 0 cs
read-zeros zero cs = refl
read-zeros (suc k) cs = read-zeros k cs

length-decimal_digits :
    (room n : ℕ) (temp : Bytes) → length (decimal_digits room n temp) ≤ room + length temp
unfolding decimal_digits
length-decimal_digits zero n temp = omega arith
length-decimal_digits (suc room) n temp =
    ground (arith, length-decimal_digits room (n / 10) ((n % 10 + b'0') ∷ temp))

take_enough : (n : ℕ) (cs : Bytes) → length cs ≤ n → take n cs ≡ cs
take_enough zero [] h = refl
take_enough zero (c ∷ cs) h = absurd (omega arith)
take_enough (suc n) [] h = refl
take_enough (suc n) (c ∷ cs) h = ap (◌∷◌ c) (take_enough n cs (omega arith))

read-filled :
    (room width : ℕ) (text : Bytes)
    → length text ≤ room
    → width ≤ room
    → read 0 (
        replicate (min (width - length text) room) b'0'
        ++ take (room - min (width - length text) room) text)
      ≡ read 0 text
read-filled room width text h w =
    let k = min (width - length text) room in
    read-zeros k (take (room - k) text) ∙ ap (read 0) (take_enough (room - k) text (omega arith))

decimal_text : (n : ℕ) → number_text 0 n ≡ decimal_digits int64_len n []
unfolding number_text
decimal_text n = refl

-- Where there is room for the width and for 20 digits, a number of 64 bits that is printed in
-- decimal and filled up with zeros is read back as it was.
pub read-sprintf_num :
    (room n width : ℕ)
    → n < 2 ^ 64
    → width ≤ room
    → int64_len ≤ room
    → read 0 (sprintf_num room n b'0' 0 width) ≡ n
unfolding sprintf_num
read-sprintf_num room n width h w r =
    read-filled room width (number_text 0 n)
      (rw (decimal_text n) (omega (arith, length-decimal_digits int64_len n []))) w
    ∙ ap (read 0) (decimal_text n)
    ∙ read-decimal_digits int64_len n [] (omega arith)
    ∙ omega arith
