-- ===== src/Text/Format.antt =====
-- demo/src/core/ngx_string.c: `ngx_vslprintf`.
pub mod Printer
pub mod Rounds
pub mod Rooms
pub mod Plain
use Prim.Native.Nat.{min}
use nginx_comment.Common.{
  ℕ, zero, suc, ◌+◌, ◌-◌, ◌*◌, ◌%◌, ◌^◌, Bool, true, false, ◌&&◌, ◌||◌, Option, none, some, List,
  [], ◌∷◌, ◌++◌, leb, ltb, ◌==◌, if◌then◌else◌, length, Mem, Ptr, Bytes,
}
use nginx_comment.Text.{sprintf_num, int64_len}

-- A number of a signed type: `n`, or the negative number -(n + 1).
pub data Signed : Type 0 where
  pos negsuc : ℕ → Signed

-- What the compiled code finds in a `double` f: whether f < 0, and of its absolute value the whole part
-- and `(uint64_t) ((f - (double) ui64) * scale + 0.5)` for a scale.
pub record Double : Type 0 where
  pub below_zero : Bool
  pub whole : ℕ
  pub fraction : ℕ → ℕ

-- An argument: a number of a signed or an unsigned type, an `ngx_str_t` by its fields, a pointer, a
-- floating point number.
pub data Arg : Type 0 where
  signed : Signed → Arg
  unsigned : ℕ → Arg
  str : ℕ → Ptr → Arg
  ptr : Ptr → Arg
  double : Double → Arg

-- What is written from `buf` on; `past_end` is that the format is read behind its terminator,
-- `mistyped` that an argument is missing or of another type than the format says.
pub data Printed : Type 0 where
  written : Bytes → Printed
  past_end mistyped unfinished : Printed

-- The local variables of a round.
pub record Flags : Type 0 where
  pub fill : ℕ
  pub width : ℕ
  pub sign : Bool
  pub hex : ℕ
  pub max_width : Bool
  pub frac_width : ℕ
  pub slen : ℕ

-- `(size_t) -1`
abbrev pub no_slen : ℕ
no_slen = 2 ^ 64 - 1

-- `while (*fmt >= '0' && *fmt <= '9')`
unfoldable pub read_width : ℕ → Bytes → ℕ × Bytes
read_width n [] = (n, [])
read_width n (c ∷ fmt) =
    let more = read_width ((n * 10 + (c - b'0')) % 2 ^ 64) fmt in
    if leb b'0' c && leb c b'9' then more else (n, c ∷ fmt)

-- `va_arg` for an unsigned type
abbrev pub next_unsigned : List Arg → Option (ℕ × List Arg)
next_unsigned (unsigned n ∷ args) = some (n, args)
next_unsigned (signed s ∷ args) = none
next_unsigned (str n p ∷ args) = none
next_unsigned (ptr p ∷ args) = none
next_unsigned (double f ∷ args) = none
next_unsigned [] = none

-- The loop over the flags.
unfoldable pub read_flags : Flags → Bytes → List Arg → Option (Flags × Bytes × List Arg)
unfolding read_width
read_flags g [] args = some (g, [], args)
read_flags g (c ∷ fmt) args =
    let as_unsigned = read_flags (record g { sign = false }) fmt args in
    let widest = read_flags (record g { max_width = true }) fmt args in
    let upper = read_flags (record g { hex = 2; sign = false }) fmt args in
    let lower = read_flags (record g { hex = 1; sign = false }) fmt args in
    let (n, rest) = read_width g.frac_width fmt in
    let counted : Option (Flags × Bytes × List Arg) = elim (next_unsigned args) [
      | none ↦ none
      | some (k, args') ↦ read_flags (record g { slen = k }) fmt args'
    ] in
    if c == b'u'
    then as_unsigned
    else if c == b'm'
    then widest
    else if c == b'X'
    then upper
    else if c == b'x'
    then lower
    else if c == b'.'
    then some (record g { frac_width = n }, rest, args)
    else if c == b'*'
    then counted
    else some (g, c ∷ fmt, args)

-- What a directive writes, by `last - buf`, with what is left of the format and the arguments.
pub data Directive : Type 0 where
  put : (ℕ → Bytes) → Bytes → List Arg → Directive
  fails : Printed → Directive

-- One writes behind the other.
abbrev pub and_then : (ℕ → Bytes) → (ℕ → Bytes) → ℕ → Bytes
and_then first second room = let bytes = first room in bytes ++ second (room - length bytes)

-- `*buf++ = c`, with no look at the room
abbrev pub one_byte : ℕ → ℕ → Bytes
one_byte c room = c ∷ []

-- `if (buf < last) { *buf++ = c; }`
abbrev pub byte_if_room : ℕ → ℕ → Bytes
byte_if_room c zero = []
byte_if_room c (suc room) = c ∷ []

-- `ngx_cpymem(buf, p, len)`
abbrev pub bytes_at : Mem → Ptr → ℕ → Bytes
bytes_at mem p zero = []
bytes_at mem p (suc n) = mem p ∷ bytes_at mem (p + 1) n

-- `while (*p && buf < last)`
abbrev pub c_string : Mem → Ptr → ℕ → Bytes
c_string mem p zero = []
c_string mem p (suc room) =
    let more = c_string mem (p + 1) room in if mem p == 0 then [] else mem p ∷ more

-- The end of a round: the minus, and the number.
unfoldable pub print_signed : Flags → Signed → ℕ → Bytes
print_signed g (pos n) = λ room. sprintf_num room n g.fill g.hex g.width
print_signed g (negsuc n) =
    and_then (one_byte b'-') (λ room. sprintf_num room ((n + 1) % 2 ^ 64) g.fill g.hex g.width)

-- `scale`
abbrev pub scale_of : ℕ → ℕ
scale_of zero = 1
scale_of (suc n) = scale_of n * 10 % 2 ^ 64

-- The whole part that is printed and the digits behind the point.
abbrev pub parts_of : ℕ → Double → ℕ × ℕ
parts_of frac_width f =
    let frac = f.fraction (scale_of frac_width) in
    if frac_width == 0
    then (f.whole, 0)
    else if frac == scale_of frac_width
    then ((f.whole + 1) % 2 ^ 64, 0)
    else (f.whole, frac)

abbrev pub nothing : ℕ → Bytes
nothing room = []

-- `case 'f'`
unfoldable pub print_double : Flags → Double → ℕ → Bytes
print_double g f =
    let (whole, frac) = parts_of g.frac_width f in
    and_then (if f.below_zero then one_byte b'-' else nothing) (
      and_then (λ room. sprintf_num room whole g.fill 0 g.width)
        (if g.frac_width == 0
          then nothing
          else and_then (byte_if_room b'.') (λ room. sprintf_num room frac b'0' 0 g.frac_width)))

-- `va_arg` for the types that the directives name.
abbrev pub with_signed : (Signed → List Arg → Directive) → List Arg → Directive
with_signed k (signed s ∷ args) = k s args
with_signed k args = fails mistyped

abbrev pub with_unsigned : (ℕ → List Arg → Directive) → List Arg → Directive
with_unsigned k (unsigned n ∷ args) = k n args
with_unsigned k args = fails mistyped

abbrev pub with_str : (ℕ → Ptr → List Arg → Directive) → List Arg → Directive
with_str k (str n p ∷ args) = k n p args
with_str k args = fails mistyped

abbrev pub with_ptr : (Ptr → List Arg → Directive) → List Arg → Directive
with_ptr k (ptr p ∷ args) = k p args
with_ptr k args = fails mistyped

abbrev pub with_double : (Double → List Arg → Directive) → List Arg → Directive
with_double k (double f ∷ args) = k f args
with_double k args = fails mistyped

-- `(u_char) (d & 0xff)`
abbrev pub low_byte : Signed → ℕ
low_byte (pos n) = n % 256
low_byte (negsuc n) = 255 - n % 256

-- A number whose type is signed whatever the flags say.
abbrev pub signed_number : Flags → Bytes → List Arg → Directive
signed_number g rest = with_signed (λ s. put (print_signed g s) rest)

-- A number of a type that `sign` chooses.
unfoldable pub number : Flags → Bytes → List Arg → Directive
number g rest args =
    if g.sign
    then signed_number g rest args
    else with_unsigned (λ n. put (λ room. sprintf_num room n g.fill g.hex g.width) rest) args

-- `if (max_width) { width = NGX_INT_T_LEN; }`
abbrev pub widened : Flags → Flags
widened g = record g { width = if g.max_width then int64_len else g.width }

-- `case 's'`
abbrev pub c_bytes : Mem → Flags → Ptr → ℕ → Bytes
c_bytes mem g p room =
    if g.slen == no_slen then c_string mem p room else bytes_at mem p (min room g.slen)

-- The switch over the directive.
unfoldable pub directive : Mem → Flags → ℕ → Bytes → List Arg → Directive
unfolding print_double number
directive mem g c rest args =
    if c == b'V'
    then with_str (λ n p. put (λ room. bytes_at mem p (min room n)) rest) args
    else if c == b's'
    then with_ptr (λ p. put (c_bytes mem g p) rest) args
    else if c == b'O' || c == b'P' || c == b'T' || c == b'r'
    then signed_number g rest args
    else if c == b'z' || c == b'd' || c == b'l' || c == b'D' || c == b'L'
    then number g rest args
    else if c == b'i' || c == b'A'
    then number (widened g) rest args
    else if c == b'f'
    then with_double (λ f. put (print_double g f) rest) args
    else if c == b'p'
    then with_ptr (λ p. put (λ room. sprintf_num room p b'0' 2 16) rest) args
    else if c == b'c'
    then with_signed (λ s. put (one_byte (low_byte s)) rest) args
    else if c == b'Z'
    then put (one_byte 0) rest args
    else if c == b'N'
    then put (one_byte 10) rest args
    else put (one_byte c) rest args

-- The flags behind a `%`.
abbrev pub no_flags : Bytes → Flags
no_flags fmt = record {
  fill = elim fmt [ [] ↦ b' ' | c ∷ rest ↦ if c == b'0' then b'0' else b' ' ];
  width = 0;
  sign = true;
  hex = 0;
  max_width = false;
  frac_width = 0;
  slen = no_slen;
}

-- The directive behind the flags; the terminator is none, and `*fmt++` moves behind it.
abbrev pub after_flags : Mem → Option (Flags × Bytes × List Arg) → Directive
after_flags mem none = fails mistyped
after_flags mem (some (g, [], args)) = fails past_end
after_flags mem (some (g, c ∷ rest, args)) = directive mem g c rest args

-- A round.
unfoldable pub round : Mem → ℕ → Bytes → List Arg → Directive
unfolding directive read_flags
round mem c fmt args =
    let (width, rest) = read_width 0 fmt in
    let flags = no_flags fmt in
    if c == b'%'
    then after_flags mem (read_flags (record flags { width = width }) rest args)
    else put (one_byte c) fmt args

abbrev pub before : Bytes → Printed → Printed
before bytes (written more) = written (bytes ++ more)
before bytes past_end = past_end
before bytes mistyped = mistyped
before bytes unfinished = unfinished

-- What a round adds to the rounds behind it.
abbrev pub add_round : (ℕ → Bytes → List Arg → Printed) → ℕ → Directive → Printed
add_round more room (fails r) = r
add_round more room (put bytes fmt args) =
    before (bytes room) (more (room - length (bytes room)) fmt args)

-- `while (*fmt && buf < last)`
unfoldable pub print_loop : Mem → ℕ → ℕ → Bytes → List Arg → Printed
unfolding round
print_loop mem zero room fmt args = unfinished
print_loop mem (suc fuel) zero fmt args = written []
print_loop mem (suc fuel) (suc room) [] args = written []
print_loop mem (suc fuel) (suc room) (c ∷ fmt) args =
    add_round (print_loop mem fuel) (suc room) (round mem c fmt args)

-- `ngx_vslprintf(buf, buf + room, fmt, args)`; every round takes a byte of the format.
unfoldable pub vslprintf : Mem → ℕ → Bytes → List Arg → Printed
unfolding print_loop
vslprintf mem room fmt args = print_loop mem (suc (length fmt)) room fmt args
