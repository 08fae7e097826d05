-- ===== src/Common/Scan.antt =====
-- The loop `for (p = b->pos; p < b->last; p++) switch (state) ...` that the parsers share.
-- A round either goes on, with the new state and the position where it leaves `p`, or stops.
use Prim.Native.Nat.{ℕ, zero, suc, ◌+◌, ◌-◌, ◌≤◌, ◌<◌}
use mathlib.Core.Path.{◌≡◌, refl, sym, ◌∙◌}
use mathlib.Core.Bool.{true, false}
use mathlib.Core.Logic.{inl, inr}
use native.Mathlib.Omega.{arith}
use nginx_comment.Common.Tests.{ltb, Bool-cases, lt→ltb, ge→ltb, tests}

pub data Round (S R : Type 0) : Type 0 where
  next : S → ℕ → Round S R
  stop : R → Round S R

module _ {S R : Type 0} where
  abbrev pub and_then : Round S R → (S → ℕ → Round S R) → Round S R
  and_then (next s p) k = k s p
  and_then (stop r) k = stop r

  -- What holds of the result: `P` of the state and position at the end, `Q` of a stop.
  abbrev pub Ends : ℕ → (S → ℕ → Type 0) → (R → Type 0) → Round S R → Type 0
  Ends last P Q (next s p) = P s p × (last ≤ p)
  Ends last P Q (stop r) = Q r

  -- What holds of one round.
  abbrev pub Keeps : (S → ℕ → Type 0) → (R → Type 0) → Round S R → Type 0
  Keeps P Q (next s p) = P s (p + 1)
  Keeps P Q (stop r) = Q r

module _ {S R : Type 0} (step : S → ℕ → Round S R) where
  -- One unit of fuel for each byte that is left is enough, as `loop_fuel` shows.
  unfoldable pub loop : ℕ → ℕ → S → ℕ → Round S R
  loop zero last s p = next s p
  loop (suc fuel) last s p = elim (ltb p last) [
    | true ↦ and_then (step s p) (λ s' q. loop fuel last s' (q + 1))
    | false ↦ next s p
  ]

  -- The loop with the fuel that it needs.
  unfoldable pub scan : ℕ → S → ℕ → Round S R
  scan last s p = loop (last - p) last s p

  -- No round leaves `p` behind where it found it.
  abbrev pub Advances : Type 0
  Advances = (s s' : S) (p q : ℕ) → step s p ≡ next s' q → p ≤ q

and_then-cong :
    {S R : Type 0} (r : Round S R) (k k' : S → ℕ → Round S R)
    → ((s : S) (q : ℕ) → r ≡ next s q → k s q ≡ k' s q)
    → and_then r k ≡ and_then r k'
and_then-cong (next s q) k k' h = h s q refl
and_then-cong (stop r) k k' h = refl

Ends-and_then :
    {S R : Type 0} (P : S → ℕ → Type 0) (Q : R → Type 0) (last : ℕ) (r : Round S R)
    (k : S → ℕ → Round S R)
    → Keeps P Q r
    → ((s : S) (q : ℕ) → r ≡ next s q → P s (q + 1) → Ends last P Q (k s q))
    → Ends last P Q (and_then r k)
Ends-and_then P Q last (next s q) k h go = go s q refl h
Ends-and_then P Q last (stop r) k h go = h

module _ {S R : Type 0} (step : S → ℕ → Round S R) (advances : Advances step) where
  loop_fuel :
      (f g last : ℕ) (s : S) (p : ℕ)
      → last - p ≤ f
      → last - p ≤ g
      → loop step f last s p ≡ loop step g last s p
  unfolding loop
  loop_fuel zero zero last s p a b = refl
  loop_fuel zero (suc g) last s p a b = rw (ge→ltb p last (omega arith), loop) refl
  loop_fuel (suc f) zero last s p a b = rw (ge→ltb p last (omega arith), loop) refl
  loop_fuel (suc f) (suc g) last s p a b = elim (Bool-cases (ltb p last)) [
    | inr e ↦ rw (e, loop) refl
    | inl e ↦
        rw (e, loop)
          (and_then-cong (step s p) _ _ (λ s' q h.
            loop_fuel f g last s' (q + 1) (omega (arith, advances s s' p q h))
              (omega (arith, advances s s' p q h))))
  ]

  -- The loop's two equations, with no fuel in sight.
  pub scan_end : (last : ℕ) (s : S) (p : ℕ) → last ≤ p → scan step last s p ≡ next s p
  unfolding scan loop
  scan_end last s p h = let e : last - p ≡ 0 = omega arith in rw e refl

  pub scan_round :
      (last : ℕ) (s : S) (p : ℕ)
      → p < last
      → scan step last s p ≡ and_then (step s p) (λ s' q. scan step last s' (q + 1))
  unfolding scan
  scan_round last s p h =
      loop_fuel (last - p) (suc (last - (p + 1))) last s p (omega arith) (omega arith)
      ∙ unfold loop in
        rw (lt→ltb p last h, loop)
          (and_then-cong (step s p) _ _ (λ s' q e.
            loop_fuel (last - (p + 1)) (last - (q + 1)) last s' (q + 1)
              (omega (arith, advances s s' p q e)) (omega arith)))

  next-scan :
      {s s' : S} {p q : ℕ} (last' : ℕ)
      → ◌≡◌ {A = Round S R} (next s p) (next s' q)
      → scan step last' s p ≡ scan step last' s' q
  next-scan last' e = cc

  resume_round :
      {s' : S} {q : ℕ} (last' : ℕ) (r : Round S R) (k : S → ℕ → Round S R)
      → and_then r k ≡ next s' q
      → ((t : S) (u : ℕ)
          → r ≡ next t u
          → k t u ≡ next s' q
          → scan step last' t (u + 1) ≡ scan step last' s' q)
      → and_then r (λ t u. scan step last' t (u + 1)) ≡ scan step last' s' q
  resume_round last' (next t u) k e go = go t u refl e
  resume_round last' (stop r) k e go = cc

  -- An invariant of the rounds holds when the loop ends, and the loop ends because the input
  -- does, never because the fuel does.
  pub scan_inv :
      (P : S → ℕ → Type 0) (Q : R → Type 0) (last : ℕ)
      → ((s : S) (p : ℕ) → P s p → p < last → Keeps P Q (step s p))
      → (n : ℕ) (s : S) (p : ℕ) → last - p ≤ n
      → P s p
      → Ends last P Q (scan step last s p)
  scan_inv P Q last keep zero s p b h = rw (scan_end last s p (omega arith)) (h, omega arith)
  scan_inv P Q last keep (suc n) s p b h = elim (Bool-cases (ltb p last)) [
    | inr e ↦ rw (scan_end last s p (omega (tests))) (h, omega tests)
    | inl e ↦ rw (scan_round last s p (omega tests)) (
        Ends-and_then P Q last (step s p) _ (keep s p h (omega tests))
          (λ s' q r k. scan_inv P Q last keep n s' (q + 1) (omega (tests, advances s s' p q r)) k))
  ]

  -- A scan that runs out of input goes on, when more input is there, as if it had been there
  -- from the start.
  pub scan_resume :
      (last last' : ℕ) (n : ℕ) (s s' : S) (p q : ℕ)
      → last - p ≤ n
      → last ≤ last'
      → scan step last s p ≡ next s' q
      → scan step last' s p ≡ scan step last' s' q
  scan_resume last last' zero s s' p q b h e =
      next-scan last' (sym (scan_end last s p (omega arith)) ∙ e)
  scan_resume last last' (suc n) s s' p q b h e = elim (Bool-cases (ltb p last)) [
    | inr t ↦ next-scan last' (sym (scan_end last s p (omega tests)) ∙ e)
    | inl t ↦
        scan_round last' s p (omega tests)
        ∙ resume_round last' (step s p) (λ s q. scan step last s (q + 1))
            (sym (scan_round last s p (omega tests)) ∙ e)
            (λ t' r d e'.
              scan_resume last last' n t' s' (r + 1) q (omega (tests, advances s t' p r d)) h e')
  ]

  next_stop :
      {s : S} {p : ℕ} {r : R} {x : Round S R} → ◌≡◌ {A = Round S R} (next s p) (stop r) → x ≡ stop r
  next_stop e = cc

  stop_round :
      (x : Round S R) (k k' : S → ℕ → Round S R) (r : R)
      → and_then x k ≡ stop r
      → ((t : S) (q : ℕ) → x ≡ next t q → k t q ≡ stop r → k' t q ≡ stop r)
      → and_then x k' ≡ stop r
  stop_round (next t q) k k' r e h = h t q refl e
  stop_round (stop y) k k' r e h = e

  -- A scan that stops does so whatever lies behind.
  pub scan_stops :
      (last last' : ℕ) (n : ℕ) (s : S) (p : ℕ) (r : R)
      → last - p ≤ n
      → last ≤ last'
      → scan step last s p ≡ stop r
      → scan step last' s p ≡ stop r
  scan_stops last last' zero s p r b h e = next_stop (sym (scan_end last s p (omega arith)) ∙ e)
  scan_stops last last' (suc n) s p r b h e = elim (Bool-cases (ltb p last)) [
    | inr t ↦ next_stop (sym (scan_end last s p (omega tests)) ∙ e)
    | inl t ↦
        scan_round last' s p (omega tests)
        ∙ stop_round (step s p) (λ s q. scan step last s (q + 1)) (λ s q. scan step last' s (q + 1))
            r (sym (scan_round last s p (omega tests)) ∙ e)
            (λ t' q d e'.
              scan_stops last last' n t' (q + 1) r (omega (tests, advances s t' p q d)) h e')
  ]

  -- One round, by what the step does.
  pub scan_next :
      (last : ℕ) (s s' : S) (p q : ℕ)
      → p < last
      → step s p ≡ next s' q
      → scan step last s p ≡ scan step last s' (q + 1)
  scan_next last s s' p q h e = scan_round last s p h ∙ rw e refl

  pub scan_stop :
      (last : ℕ) (s : S) (p : ℕ) (r : R)
      → p < last
      → step s p ≡ stop r
      → scan step last s p ≡ stop r
  scan_stop last s p r h e = scan_round last s p h ∙ rw e refl

kept_next :
    {S R : Type 0} (P : S → ℕ → Type 0) (r : Round S R) {t : S} {q : ℕ}
    → r ≡ next t q
    → Keeps P (λ _. Unit {0}) r
    → P t (q + 1)
kept_next P r e k = rw e at k

-- Two steps that agree along an invariant scan alike.
pub scan_cong :
    {S R : Type 0} (f g : S → ℕ → Round S R) (P : S → ℕ → Type 0) (last : ℕ)
    → Advances f
    → Advances g
    → ((s : S) (p : ℕ) → P s p → p < last → (f s p ≡ g s p) × Keeps P (λ _. Unit {0}) (f s p))
    → (n : ℕ) (s : S) (p : ℕ) → last - p ≤ n
    → P s p
    → scan f last s p ≡ scan g last s p
scan_cong f g P last a b same zero s p h k =
    scan_end f a last s p (omega arith) ∙ sym (scan_end g b last s p (omega arith))
scan_cong f g P last a b same (suc n) s p h k = elim (Bool-cases (ltb p last)) [
  | inr e ↦ scan_end f a last s p (omega tests) ∙ sym (scan_end g b last s p (omega tests))
  | inl e ↦
      let lt : p < last = omega tests in
      scan_round f a last s p lt
      ∙ and_then-cong (f s p) _ _ (λ t q r.
        scan_cong f g P last a b same n t (q + 1) (omega (arith, a s t p q r))
          (kept_next P (f s p) r (same s p k lt).1))
      ∙ rw (same s p k lt).0 (sym (scan_round g b last s p lt))
]
