-- ===== src/Text/Format/Rooms.antt =====
-- `ngx_vslprintf` and the room that it is given.
use mathlib.Core.Path.{subst}
use nginx_comment.Common.{
  ℕ, zero, suc, ◌-◌, ◌≤◌, ◌<◌, ◌≡◌, ◌⊎◌, ◌∙◌, refl, sym, ap, List, [], ◌∷◌, inl, inr, length, take,
  length-append, length-take, arith, Mem, Bytes,
}
use nginx_comment.Text.Format.{
  Arg, Printed, written, past_end, mistyped, unfinished, Directive, put, fails, round, before,
  add_round, print_loop, vslprintf,
}
use nginx_comment.Text.Format.Printer.{take-append}
use nginx_comment.Text.Format.Rounds.{Good, round-Good}

-- The output for much room, and what it says of the output for less.
abbrev Cut : ℕ → ℕ → Printed → Printed → Type 0
Cut m n (written out) small = (length out ≤ n) × (small ≡ written (take m out))
Cut m n past_end small = Unit {0}
Cut m n mistyped small = Unit {0}
Cut m n unfinished small = ⊥

before-Cut :
    (m n : ℕ) (bytes : Bytes) (large small : Printed)
    → length bytes ≤ n
    → Cut (m - length bytes) (n - length bytes) large small
    → Cut m n (before bytes large) (before (take m bytes) small)
before-Cut m n bytes (written out) small h c = (
  omega (arith, length-append bytes out, c.0),
  ap (before (take m bytes)) c.1 ∙ ap written (sym (take-append m bytes out)),
)
before-Cut m n bytes past_end small h c = tt
before-Cut m n bytes mistyped small h c = tt
before-Cut m n bytes unfinished small h c = c

module _ (more : ℕ → Bytes → List Arg → Printed) (fuel : ℕ) where
  -- The rounds that follow are cut off where there is less room.
  abbrev Cuts : Type 0
  Cuts =
      (m n : ℕ) (fmt : Bytes) (args : List Arg)
      → m ≤ n
      → length fmt < fuel
      → Cut m n (more n fmt args) (more m fmt args)

  round-Cut :
      Cuts
      → (m n left : ℕ) (d : Directive) → 1 ≤ m
      → m ≤ n
      → left < fuel
      → Good left d
      → Cut m n (add_round more n d) (add_round more m d)
  round-Cut ih m n left (fails r) one le lt (inl e) = rw e tt
  round-Cut ih m n left (fails r) one le lt (inr e) = rw e tt
  round-Cut ih m n left (put bytes rest args) one le lt g =
      let shorter : m - length (take m (bytes n)) ≡ m - length (bytes n) =
        omega (arith, length-take m (bytes n)) in
      rw (g.0.cut m n one le) (
        rw shorter (
          before-Cut m n (bytes n) (more (n - length (bytes n)) rest args)
            (more (m - length (bytes n)) rest args) (g.0.fits n (omega arith))
            (ih (m - length (bytes n)) (n - length (bytes n)) rest args (omega arith)
              (omega (arith, g.1)))))

no_room : (n : ℕ) (r : Printed) → Cut n n r r → Cut 0 n r (written [])
no_room n (written out) h = (h.0, refl)
no_room n past_end h = tt
no_room n mistyped h = tt
no_room n unfinished h = h

print_loop-Cut : (mem : Mem) (fuel : ℕ) → Cuts (print_loop mem fuel) fuel
unfolding print_loop
print_loop-Cut mem zero m n fmt args le lt = absurd (omega arith)
print_loop-Cut mem (suc fuel) zero zero fmt args le lt = (omega arith, refl)
print_loop-Cut mem (suc fuel) (suc m) zero fmt args le lt = absurd (omega arith)
print_loop-Cut mem (suc fuel) zero (suc n) [] args le lt = (omega arith, refl)
print_loop-Cut mem (suc fuel) (suc m) (suc n) [] args le lt = (omega arith, refl)
print_loop-Cut mem (suc fuel) zero (suc n) (c ∷ fmt) args le lt = no_room (suc n) _ (
    round-Cut (print_loop mem fuel) fuel (print_loop-Cut mem fuel) (suc n) (suc n) (length fmt)
      (round mem c fmt args) (omega arith) (omega arith) (omega arith) (round-Good mem c fmt args))
print_loop-Cut mem (suc fuel) (suc m) (suc n) (c ∷ fmt) args le lt =
    round-Cut (print_loop mem fuel) fuel (print_loop-Cut mem fuel) (suc m) (suc n) (length fmt)
      (round mem c fmt args) (omega arith) le (omega arith) (round-Good mem c fmt args)

Cut-cases :
    (n : ℕ) (r : Printed)
    → Cut n n r r
    → ((out : Bytes) × (r ≡ written out) × (length out ≤ n)) ⊎ ((r ≡ past_end) ⊎ (r ≡ mistyped))
Cut-cases n (written out) h = inl (out, refl, h.0)
Cut-cases n past_end h = inr (inl refl)
Cut-cases n mistyped h = inr (inr refl)
Cut-cases n unfinished h = absurd h

module _ (mem : Mem) (fmt : Bytes) (args : List Arg) where
  -- Whatever the format and the arguments, `ngx_vslprintf` comes to an end: it has written no more
  -- bytes than there is room for, or it has read the format behind its terminator, or asked for an
  -- argument that is missing or of another type.
  pub vslprintf-fits :
      (room : ℕ)
      → ((out : Bytes) × (vslprintf mem room fmt args ≡ written out) × (length out ≤ room))
        ⊎ ((vslprintf mem room fmt args ≡ past_end) ⊎ (vslprintf mem room fmt args ≡ mistyped))
  unfolding vslprintf
  vslprintf-fits room =
      Cut-cases room (vslprintf mem room fmt args)
        (print_loop-Cut mem (suc (length fmt)) room room fmt args (omega arith) (omega arith))

  -- With less room `ngx_vslprintf` writes the first bytes of what it writes with more, as many as
  -- there is room for.
  pub vslprintf-cut :
      (m n : ℕ) {out : Bytes}
      → m ≤ n
      → vslprintf mem n fmt args ≡ written out
      → vslprintf mem m fmt args ≡ written (take m out)
  unfolding vslprintf
  vslprintf-cut m n {out} le e =
      let c =
        subst (λ r. Cut m n r (vslprintf mem m fmt args)) e
          (print_loop-Cut mem (suc (length fmt)) m n fmt args le (omega arith)) in
      c.1
