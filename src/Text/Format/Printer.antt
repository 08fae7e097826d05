-- ===== src/Text/Format/Printer.antt =====
-- What a directive writes keeps to the room, and with less room it is cut off.
use Prim.Native.Nat.{min}
use mathlib.Core.Path.{subst}
use mathlib.Core.Path.{fun_ext}
use nginx_comment.Common.{
  ℕ, zero, suc, ◌+◌, ◌-◌, ◌%◌, ◌^◌, ◌≤◌, ◌≡◌, ◌∙◌, refl, sym, ap, Bool, true, false, [], ◌∷◌, ◌++◌,
  ◌==◌, if◌then◌else◌, Bool-cases, inl, inr, length, take, replicate, length-append, length-take,
  length-replicate, if_true, if_false, arith, Mem, Bytes,
}
use nginx_comment.Text.{sprintf_num, number_text}
use nginx_comment.Text.Numbers.{length-sprintf_num}
use nginx_comment.Text.Format.{
  Signed, pos, negsuc, Double, Flags, and_then, one_byte, byte_if_room, bytes_at, c_string,
  print_signed, parts_of, nothing, print_double, c_bytes, no_slen,
}

-- Where `least` bytes of room are there.
pub record IsPrinter (least : ℕ) (p : ℕ → Bytes) : Type 0 where
  pub fits : (n : ℕ) → least ≤ n → length (p n) ≤ n
  pub cut : (m n : ℕ) → least ≤ m → m ≤ n → p m ≡ take m (p n)

pub take-append : (m : ℕ) (xs ys : Bytes) → take m (xs ++ ys) ≡ take m xs ++ take (m - length xs) ys
take-append zero [] ys = refl
take-append (suc m) [] ys = rw (let e : suc m - 0 ≡ suc m = omega arith in e) refl
take-append zero (x ∷ xs) ys = rw (let e : 0 - suc (length xs) ≡ 0 = omega arith in e) refl
take-append (suc m) (x ∷ xs) ys =
    rw (let e : suc m - suc (length xs) ≡ m - length xs = omega arith in e)
      (ap (◌∷◌ x) (take-append m xs ys))

pub take-take : (m n : ℕ) (xs : Bytes) → m ≤ n → take m (take n xs) ≡ take m xs
take-take zero n xs h = refl
take-take (suc m) zero xs h = absurd (omega arith)
take-take (suc m) (suc n) [] h = refl
take-take (suc m) (suc n) (x ∷ xs) h = ap (◌∷◌ x) (take-take m n xs (omega arith))

pub weaker : {p : ℕ → Bytes} → IsPrinter 0 p → IsPrinter 1 p
weaker h = record { fits = λ n k. h.fits n (omega arith); cut = λ m n k. h.cut m n (omega arith) }

and_then-IsPrinter :
    (least : ℕ) (p q : ℕ → Bytes)
    → IsPrinter least p
    → IsPrinter 0 q
    → IsPrinter least (and_then p q)
and_then-IsPrinter least p q hp hq = record {
  fits = λ n h. omega (
    arith,
    hp.fits n h,
    hq.fits (n - length (p n)) (omega arith),
    length-append (p n) (q (n - length (p n))),
  );
  cut = λ m n h le.
      let a = p n in
      let b = q (n - length a) in
      let c : m - length (take m a) ≡ m - length a = omega (arith, length-take m a) in
      rw (hp.cut m n h le) (
        rw c (
          ap (λ e. take m a ++ e) (hq.cut (m - length a) (n - length a) (omega arith) (omega arith))
          ∙ sym (take-append m a b)));
}

pub one_byte-IsPrinter : (c : ℕ) → IsPrinter 1 (one_byte c)
one_byte-IsPrinter c = record { fits = λ n h. omega arith; cut = λ m n h le. one m h }
  where
    one : (m : ℕ) → 1 ≤ m → c ∷ [] ≡ take m (c ∷ [])
    one zero h = absurd (omega arith)
    one (suc zero) h = refl
    one (suc (suc m)) h = refl

nothing-IsPrinter : (least : ℕ) → IsPrinter least nothing
nothing-IsPrinter least = record { fits = λ n h. omega arith; cut = λ m n h le. none_of m }
  where
    none_of : (m : ℕ) → ◌≡◌ {A = Bytes} [] (take m [])
    none_of zero = refl
    none_of (suc m) = refl

byte_if_room-IsPrinter : (c : ℕ) → IsPrinter 0 (byte_if_room c)
byte_if_room-IsPrinter c = record { fits = fits; cut = cut }
  where
    fits : (n : ℕ) → 0 ≤ n → length (byte_if_room c n) ≤ n
    fits zero h = omega arith
    fits (suc n) h = omega arith

    cut : (m n : ℕ) → 0 ≤ m → m ≤ n → byte_if_room c m ≡ take m (byte_if_room c n)
    cut zero n h le = refl
    cut (suc zero) (suc n) h le = refl
    cut (suc (suc m)) (suc n) h le = refl
    cut (suc m) zero h le = absurd (omega arith)

length-bytes_at : (mem : Mem) (p n : ℕ) → length (bytes_at mem p n) ≡ n
length-bytes_at mem p zero = refl
length-bytes_at mem p (suc n) = ap suc (length-bytes_at mem (p + 1) n)

take-bytes_at : (mem : Mem) (m p n : ℕ) → take m (bytes_at mem p n) ≡ bytes_at mem p (min m n)
take-bytes_at mem zero p n = rw (let e : min 0 n ≡ 0 = omega arith in e) refl
take-bytes_at mem (suc m) p zero = rw (let e : min (suc m) 0 ≡ 0 = omega arith in e) refl
take-bytes_at mem (suc m) p (suc n) =
    ap (◌∷◌ (mem p)) (take-bytes_at mem m (p + 1) n)
    ∙ ap (bytes_at mem p) {x = suc (min m n)} {y = min (suc m) (suc n)} (omega arith)

pub bytes_at-IsPrinter : (mem : Mem) (p k : ℕ) → IsPrinter 0 (λ room. bytes_at mem p (min room k))
bytes_at-IsPrinter mem p k = record {
  fits = λ n h. omega (arith, length-bytes_at mem p (min n k));
  cut = λ m n h le.
      ap (bytes_at mem p) {x = min m k} {y = min m (min n k)} (omega arith)
      ∙ sym (take-bytes_at mem m p (min n k));
}

length-c_string : (mem : Mem) (p n : ℕ) → length (c_string mem p n) ≤ n
length-c_string mem p zero = omega arith
length-c_string mem p (suc n) = ground (arith, length-c_string mem (p + 1) n)

c_string-cut : (mem : Mem) (p m n : ℕ) → m ≤ n → c_string mem p m ≡ take m (c_string mem p n)
c_string-cut mem p zero n h = refl
c_string-cut mem p (suc m) zero h = absurd (omega arith)
c_string-cut mem p (suc m) (suc n) h = elim (Bool-cases (mem p == 0)) [
  | inl t ↦ rw t refl
  | inr t ↦ rw t (ap (◌∷◌ (mem p)) (c_string-cut mem (p + 1) m n (omega arith)))
]

c_string-IsPrinter : (mem : Mem) (p : ℕ) → IsPrinter 0 (c_string mem p)
c_string-IsPrinter mem p = record {
  fits = λ n h. length-c_string mem p n;
  cut = λ m n h le. c_string-cut mem p m n le;
}

pub c_bytes-IsPrinter : (mem : Mem) (g : Flags) (p : ℕ) → IsPrinter 0 (c_bytes mem g p)
c_bytes-IsPrinter mem g p = elim (Bool-cases (g.slen == no_slen)) [
  | inl t ↦
      subst (IsPrinter 0) (fun_ext (λ room. sym (if_true (bytes_at mem p (min room g.slen)) t)))
        (c_string-IsPrinter mem p)
  | inr t ↦
      subst (IsPrinter 0) (fun_ext (λ room. sym (if_false (c_string mem p room) t)))
        (bytes_at-IsPrinter mem p g.slen)
]

take-replicate : (m n x : ℕ) → take m (replicate n x) ≡ replicate (min m n) x
take-replicate zero n x = rw (let e : min 0 n ≡ 0 = omega arith in e) refl
take-replicate (suc m) zero x = rw (let e : min (suc m) 0 ≡ 0 = omega arith in e) refl
take-replicate (suc m) (suc n) x =
    ap (◌∷◌ x) (take-replicate m n x)
    ∙ ap (λ k. replicate k x) {x = suc (min m n)} {y = min (suc m) (suc n)} (omega arith)

pub sprintf_num-IsPrinter :
    (n fill hexadecimal width : ℕ) → IsPrinter 0 (λ room. sprintf_num room n fill hexadecimal width)
unfolding sprintf_num
sprintf_num-IsPrinter n fill hexadecimal width = record {
  fits = λ room h. omega (arith, length-sprintf_num room n fill hexadecimal width);
  cut = λ m room h le.
      let text = number_text hexadecimal n in
      let w = width - length text in
      let pad = replicate (min w room) fill in
      let one : min m (min w room) ≡ min w m = omega arith in
      let two : m - length pad ≡ m - min w m =
        omega (arith, length-replicate {A = ℕ} (min w room) fill) in
      sym (
        take-append m pad (take (room - min w room) text)
        ∙ ap (λ e. e ++ take (m - length pad) (take (room - min w room) text))
            (take-replicate m (min w room) fill ∙ ap (λ k. replicate k fill) one)
        ∙ ap (λ e. replicate (min w m) fill ++ e)
            (ap (λ k. take k (take (room - min w room) text)) two
              ∙ take-take (m - min w m) (room - min w room) text (omega arith)));
}

pub print_signed-IsPrinter : (g : Flags) (s : Signed) → IsPrinter 1 (print_signed g s)
unfolding print_signed
print_signed-IsPrinter g (pos n) = weaker (sprintf_num-IsPrinter n g.fill g.hex g.width)
print_signed-IsPrinter g (negsuc n) =
    and_then-IsPrinter 1 (one_byte b'-')
      (λ room. sprintf_num room ((n + 1) % 2 ^ 64) g.fill g.hex g.width) (one_byte-IsPrinter b'-')
      (sprintf_num-IsPrinter ((n + 1) % 2 ^ 64) g.fill g.hex g.width)

pub print_double-IsPrinter : (g : Flags) (f : Double) → IsPrinter 1 (print_double g f)
unfolding print_double
print_double-IsPrinter g f =
    let (whole, frac) = parts_of g.frac_width f in
    and_then-IsPrinter 1 (if f.below_zero then one_byte b'-' else nothing) _ (minus (f.below_zero))
      (and_then-IsPrinter 0 (λ room. sprintf_num room whole g.fill 0 g.width) _
        (sprintf_num-IsPrinter whole g.fill 0 g.width) (point frac (g.frac_width == 0)))
  where
    minus : (b : Bool) → IsPrinter 1 (if b then one_byte b'-' else nothing)
    minus true = one_byte-IsPrinter b'-'
    minus false = nothing-IsPrinter 1

    point :
        (frac : ℕ) (b : Bool)
        → IsPrinter 0 (
            if b
            then nothing
            else and_then (byte_if_room b'.') (λ room. sprintf_num room frac b'0' 0 g.frac_width))
    point frac true = nothing-IsPrinter 0
    point frac false =
        and_then-IsPrinter 0 (byte_if_room b'.') _ (byte_if_room-IsPrinter b'.')
          (sprintf_num-IsPrinter frac b'0' 0 g.frac_width)
