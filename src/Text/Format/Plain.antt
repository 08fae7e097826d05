-- ===== src/Text/Format/Plain.antt =====
-- The bytes of a format that begin no directive, and a format that ends in the sign of one.
use nginx_comment.Common.{
  ℕ, zero, suc, ◌+◌, ◌-◌, ◌≤◌, ◌<◌, ◌≡◌, ◌≢◌, ◌∙◌, refl, ap, List, [], ◌∷◌, ◌++◌, ==_ne, if_false,
  length, length-append, arith, Mem, Bytes,
}
use nginx_comment.Text.Format.{
  Arg, Printed, written, past_end, mistyped, unfinished, put, fails, one_byte, round, read_width,
  read_flags, before, add_round, print_loop, vslprintf,
}

-- Bytes of the format that begin no directive.
abbrev pub Plain : Bytes → Type 0
Plain [] = Unit
Plain (c ∷ text) = (c ≢ b'%') × Plain text

-- The fuel with a round more for each byte.
abbrev more_fuel : Bytes → ℕ → ℕ
more_fuel [] fuel = fuel
more_fuel (c ∷ text) fuel = suc (more_fuel text fuel)

more_fuel_lem : (text : Bytes) (fuel : ℕ) → more_fuel text fuel ≡ length text + fuel
more_fuel_lem [] fuel = omega arith
more_fuel_lem (c ∷ text) fuel = omega (arith, more_fuel_lem text fuel)

before-before :
    (c : ℕ) (text : Bytes) (r : Printed) → before (c ∷ []) (before text r) ≡ before (c ∷ text) r
before-before c text (written out) = refl
before-before c text past_end = refl
before-before c text mistyped = refl
before-before c text unfinished = refl

before-nil : (r : Printed) → r ≡ before [] r
before-nil (written out) = refl
before-nil past_end = refl
before-nil mistyped = refl
before-nil unfinished = refl

plain_round :
    (mem : Mem) (c : ℕ) (fmt : Bytes) (args : List Arg)
    → c ≢ b'%'
    → round mem c fmt args ≡ put (one_byte c) fmt args
unfolding round
plain_round mem c fmt args h = if_false _ (==_ne c b'%' h)

print_loop-Plain :
    (mem : Mem) (fuel room : ℕ) (text rest : Bytes) (args : List Arg)
    → Plain text
    → length text ≤ room
    → print_loop mem (more_fuel text fuel) room (text ++ rest) args
      ≡ before text (print_loop mem fuel (room - length text) rest args)
unfolding print_loop
print_loop-Plain mem fuel room [] rest args h le =
    rw (let e : room - 0 ≡ room = omega arith in e)
      (before-nil (print_loop mem fuel room rest args))
print_loop-Plain mem fuel zero (c ∷ text) rest args h le = absurd (omega arith)
print_loop-Plain mem fuel (suc room) (c ∷ text) rest args h le =
    ap (add_round (print_loop mem (more_fuel text fuel)) (suc room))
      (plain_round mem c (text ++ rest) args h.0)
    ∙ rw (let e : suc room - 1 ≡ room = omega arith in e) (
        rw (let e : suc room - suc (length text) ≡ room - length text = omega arith in e) (
          ap (before (c ∷ [])) (print_loop-Plain mem fuel room text rest args h.1 (omega arith))
          ∙ before-before c text (print_loop mem fuel (room - length text) rest args)))

bare_round : (mem : Mem) (args : List Arg) → round mem b'%' [] args ≡ fails past_end
unfolding round read_width read_flags
bare_round mem args = refl

last_rounds :
    (mem : Mem) (fuel room : ℕ) (args : List Arg)
    → 0 < room
    → print_loop mem (suc fuel) room (b'%' ∷ []) args ≡ past_end
unfolding print_loop
last_rounds mem fuel zero args h = absurd (omega arith)
last_rounds mem fuel (suc room) args h =
    ap (add_round (print_loop mem fuel) (suc room)) (bare_round mem args)

-- Where a format ends in a `%` behind bytes that begin no directive, and there is room for more than
-- these bytes, `ngx_vslprintf` writes the terminator of the format and reads on behind it.
pub vslprintf-past_end :
    (mem : Mem) (room : ℕ) (text : Bytes) (args : List Arg)
    → Plain text
    → length text < room
    → vslprintf mem room (text ++ b'%' ∷ []) args ≡ past_end
unfolding vslprintf
vslprintf-past_end mem room text args h le =
    ap (λ k. print_loop mem k room (text ++ b'%' ∷ []) args) {x = suc (length (text ++ b'%' ∷ []))}
      {y = more_fuel text 2} (omega (arith, more_fuel_lem text 2, length-append text (b'%' ∷ [])))
    ∙ print_loop-Plain mem 2 room text (b'%' ∷ []) args h (omega arith)
    ∙ ap (before text) (last_rounds mem 1 (room - length text) args (omega arith))
