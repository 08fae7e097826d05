-- ===== src/Text/Format/Rounds.antt =====
-- A round of `ngx_vslprintf` keeps to the room, and goes on with less of the format.
use nginx_comment.Common.{
  ℕ, suc, ◌+◌, ◌-◌, ◌*◌, ◌%◌, ◌^◌, ◌≤◌, ◌≡◌, ◌⊎◌, refl, Bool, true, false, Option, none, some, List,
  [], ◌∷◌, ◌==◌, leb, ◌&&◌, ◌||◌, if◌then◌else◌, Bool-cases, inl, inr, length, arith, Mem, Ptr,
  Bytes,
}
use nginx_comment.Text.Format.{
  low_byte, Signed, Double, Arg, signed, unsigned, str, ptr, double, past_end, mistyped, Flags,
  read_width, next_unsigned, read_flags, Directive, put, fails, with_signed, with_unsigned,
  with_str, with_ptr, with_double, number, widened, directive, after_flags, round, no_flags,
}
use nginx_comment.Text.Format.Printer.{
  IsPrinter, weaker, one_byte-IsPrinter, bytes_at-IsPrinter, c_bytes-IsPrinter,
  sprintf_num-IsPrinter, print_signed-IsPrinter, print_double-IsPrinter,
}

-- A directive that is carried out keeps to the room, and leaves so much of the format at most.
abbrev pub Good : ℕ → Directive → Type 0
Good left (put bytes rest args) = IsPrinter 1 bytes × (length rest ≤ left)
Good left (fails r) = (r ≡ past_end) ⊎ (r ≡ mistyped)

if_Good :
    (left : ℕ) (b : Bool) (d e : Directive)
    → Good left d
    → Good left e
    → Good left (if b then d else e)
if_Good left true d e h k = h
if_Good left false d e h k = k

module _ (mem : Mem) (left : ℕ) (rest : Bytes) (shorter : length rest ≤ left) where
  with_signed-Good :
      (p : Signed → ℕ → Bytes)
      → ((s : Signed) → IsPrinter 1 (p s))
      → (args : List Arg) → Good left (with_signed (λ s. put (p s) rest) args)
  with_signed-Good p h (signed s ∷ args) = (h s, shorter)
  with_signed-Good p h (unsigned n ∷ args) = inr refl
  with_signed-Good p h (str n q ∷ args) = inr refl
  with_signed-Good p h (ptr q ∷ args) = inr refl
  with_signed-Good p h (double f ∷ args) = inr refl
  with_signed-Good p h [] = inr refl

  with_unsigned-Good :
      (p : ℕ → ℕ → Bytes)
      → ((n : ℕ) → IsPrinter 1 (p n))
      → (args : List Arg) → Good left (with_unsigned (λ n. put (p n) rest) args)
  with_unsigned-Good p h (unsigned n ∷ args) = (h n, shorter)
  with_unsigned-Good p h (signed s ∷ args) = inr refl
  with_unsigned-Good p h (str n q ∷ args) = inr refl
  with_unsigned-Good p h (ptr q ∷ args) = inr refl
  with_unsigned-Good p h (double f ∷ args) = inr refl
  with_unsigned-Good p h [] = inr refl

  with_ptr-Good :
      (p : Ptr → ℕ → Bytes)
      → ((q : Ptr) → IsPrinter 1 (p q))
      → (args : List Arg) → Good left (with_ptr (λ q. put (p q) rest) args)
  with_ptr-Good p h (ptr q ∷ args) = (h q, shorter)
  with_ptr-Good p h (signed s ∷ args) = inr refl
  with_ptr-Good p h (str n q ∷ args) = inr refl
  with_ptr-Good p h (unsigned n ∷ args) = inr refl
  with_ptr-Good p h (double f ∷ args) = inr refl
  with_ptr-Good p h [] = inr refl

  with_str-Good :
      (p : ℕ → Ptr → ℕ → Bytes)
      → ((n : ℕ) (q : Ptr) → IsPrinter 1 (p n q))
      → (args : List Arg) → Good left (with_str (λ n q. put (p n q) rest) args)
  with_str-Good p h (str n q ∷ args) = (h n q, shorter)
  with_str-Good p h (signed s ∷ args) = inr refl
  with_str-Good p h (ptr q ∷ args) = inr refl
  with_str-Good p h (unsigned n ∷ args) = inr refl
  with_str-Good p h (double f ∷ args) = inr refl
  with_str-Good p h [] = inr refl

  with_double-Good :
      (p : Double → ℕ → Bytes)
      → ((f : Double) → IsPrinter 1 (p f))
      → (args : List Arg) → Good left (with_double (λ f. put (p f) rest) args)
  with_double-Good p h (double f ∷ args) = (h f, shorter)
  with_double-Good p h (signed s ∷ args) = inr refl
  with_double-Good p h (ptr q ∷ args) = inr refl
  with_double-Good p h (unsigned n ∷ args) = inr refl
  with_double-Good p h (str n q ∷ args) = inr refl
  with_double-Good p h [] = inr refl

  number-Good : (g : Flags) (args : List Arg) → Good left (number g rest args)
  unfolding number
  number-Good g args =
      if_Good left g.sign _ _ (with_signed-Good _ (print_signed-IsPrinter g) args)
        (with_unsigned-Good _ (λ n. weaker (sprintf_num-IsPrinter n g.fill g.hex g.width)) args)

  directive-Good : (g : Flags) (c : ℕ) (args : List Arg) → Good left (directive mem g c rest args)
  unfolding directive
  directive-Good g c args =
      if_Good left (c == b'V') _ _
        (with_str-Good _ (λ n p. weaker (bytes_at-IsPrinter mem p n)) args)
        (if_Good left (c == b's') _ _
          (with_ptr-Good _ (λ p. weaker (c_bytes-IsPrinter mem g p)) args)
          (if_Good left (c == b'O' || c == b'P' || c == b'T' || c == b'r') _ _
            (with_signed-Good _ (print_signed-IsPrinter g) args)
            (if_Good left (c == b'z' || c == b'd' || c == b'l' || c == b'D' || c == b'L') _ _
              (number-Good g args)
              (if_Good left (c == b'i' || c == b'A') _ _ (number-Good (widened g) args) (
                if_Good left (c == b'f') _ _ (with_double-Good _ (print_double-IsPrinter g) args) (
                  if_Good left (c == b'p') _ _
                    (with_ptr-Good _ (λ p. weaker (sprintf_num-IsPrinter p b'0' 2 16)) args)
                    (if_Good left (c == b'c') _ _
                      (with_signed-Good _ (λ s. one_byte-IsPrinter (low_byte s)) args)
                      (if_Good left (c == b'Z') _ _ (one_byte-IsPrinter 0, shorter)
                        (if_Good left (c == b'N') _ _ (one_byte-IsPrinter 10, shorter)
                          (one_byte-IsPrinter c, shorter))))))))))

length-read_width : (n : ℕ) (fmt : Bytes) → length (read_width n fmt).1 ≤ length fmt
unfolding read_width
length-read_width n [] = omega arith
length-read_width n (c ∷ fmt) = elim (Bool-cases (leb b'0' c && leb c b'9')) [
  | inl t ↦ rw t (omega (arith, length-read_width ((n * 10 + (c - b'0')) % 2 ^ 64) fmt))
  | inr t ↦ rw t (omega arith)
]

-- The flags leave no more of the format than there was.
abbrev Shorter : ℕ → Option (Flags × Bytes × List Arg) → Type 0
Shorter n none = Unit {0}
Shorter n (some (g, rest, args)) = length rest ≤ n

if_Shorter :
    (n : ℕ) (b : Bool) (x y : Option (Flags × Bytes × List Arg))
    → Shorter n x
    → Shorter n y
    → Shorter n (if b then x else y)
if_Shorter n true x y h k = h
if_Shorter n false x y h k = k

wider : (n : ℕ) (x : Option (Flags × Bytes × List Arg)) → Shorter n x → Shorter (suc n) x
wider n none h = tt
wider n (some (g, rest, args)) h = omega arith

read_flags-Shorter :
    (g : Flags) (fmt : Bytes) (args : List Arg) → Shorter (length fmt) (read_flags g fmt args)
unfolding read_flags
read_flags-Shorter g [] args = omega arith
read_flags-Shorter g (c ∷ fmt) args =
    let n = length fmt in
    let again = λ (g : Flags). wider n (read_flags g fmt args) (read_flags-Shorter g fmt args) in
    if_Shorter (suc n) (c == b'u') _ _ (again (record g { sign = false })) (
      if_Shorter (suc n) (c == b'm') _ _ (again (record g { max_width = true })) (
        if_Shorter (suc n) (c == b'X') _ _ (again (record g { hex = 2; sign = false })) (
          if_Shorter (suc n) (c == b'x') _ _ (again (record g { hex = 1; sign = false })) (
            if_Shorter (suc n) (c == b'.') _ _ (omega (arith, length-read_width g.frac_width fmt)) (
              if_Shorter (suc n) (c == b'*') _ _
                (counted (next_unsigned args) (λ k args'.
                  wider n (read_flags (record g { slen = k }) fmt args')
                    (read_flags-Shorter (record g { slen = k }) fmt args')))
                (omega arith))))))
  where
    counted :
        (o : Option (ℕ × List Arg))
        → ((k : ℕ) (args' : List Arg)
            → Shorter (suc (length fmt)) (read_flags (record g { slen = k }) fmt args'))
        → Shorter (suc (length fmt)) (elim o [
          | none ↦ none
          | some (k, args') ↦ read_flags (record g { slen = k }) fmt args'
        ])
    counted none f = tt
    counted (some (k, args')) f = f k args'

after_flags-Good :
    (mem : Mem) (left : ℕ) (o : Option (Flags × Bytes × List Arg))
    → Shorter (suc left) o
    → Good left (after_flags mem o)
after_flags-Good mem left none h = inr refl
after_flags-Good mem left (some (g, [], args)) h = inl refl
after_flags-Good mem left (some (g, c ∷ rest, args)) h =
    directive-Good mem left rest (omega arith) g c args

looser : (m n : ℕ) (o : Option (Flags × Bytes × List Arg)) → m ≤ n → Shorter m o → Shorter n o
looser m n none le h = tt
looser m n (some (g, rest, args)) le h = omega arith

-- A round is carried out or fails, and what is left of the format is shorter.
pub round-Good :
    (mem : Mem) (c : ℕ) (fmt : Bytes) (args : List Arg) → Good (length fmt) (round mem c fmt args)
unfolding round
round-Good mem c fmt args =
    let (width, rest) = read_width 0 fmt in
    let flags = record (no_flags fmt) { width = width } in
    if_Good (length fmt) (c == b'%') _ _
      (after_flags-Good mem (length fmt) (read_flags flags rest args) (
        looser (length rest) (suc (length fmt)) (read_flags flags rest args)
          (omega (arith, length-read_width 0 fmt)) (read_flags-Shorter flags rest args)))
      (one_byte-IsPrinter c, omega arith)
