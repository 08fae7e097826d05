-- ===== src/Queue/Middle.antt =====
-- `ngx_queue_middle` against the positions in the list of the elements.
use nginx_comment.Common.{
  ℕ, zero, suc, ◌+◌, ◌*◌, ◌/◌, ◌<◌, ◌≤◌, ◌≡◌, ◌≢◌, refl, sym, ap, ◌∙◌, true, false, some, List, [],
  ◌∷◌, ◌++◌, length, get_or, arith, ◌==◌, ==_iff, ==_ne, eq_or_ne, inl, inr, Ptr,
}
use nginx_comment.Queue.{Links, middle_loop, middle}
use nginx_comment.Queue.Ring.{Walk, Out, Distinct, IsQueue, last_of}
use nginx_comment.Queue.Order.{Walk-last}

Out-get_or : (u h : Ptr) (xs : List Ptr) (i : ℕ) → u ≢ h → Out u xs → u ≢ get_or xs i h
Out-get_or u h [] i n o = n
Out-get_or u h (x ∷ xs) zero n o = o.0
Out-get_or u h (x ∷ xs) (suc i) n o = Out-get_or u h xs i n o.1

-- The positions of a queue, with the head as the one behind the elements, are all different.
get_or_ne :
    (h : Ptr) (xs : List Ptr) (i j : ℕ)
    → Distinct (h ∷ xs)
    → i < j
    → j ≤ length xs
    → get_or xs i h ≢ get_or xs j h
get_or_ne h [] i j d a b = absurd (omega arith)
get_or_ne h (x ∷ xs) zero zero d a b = absurd (omega arith)
get_or_ne h (x ∷ xs) zero (suc j) d a b = Out-get_or x h xs j (λ e. d.0.0 (sym e)) d.1.0
get_or_ne h (x ∷ xs) (suc i) zero d a b = absurd (omega arith)
get_or_ne h (x ∷ xs) (suc i) (suc j) d a b =
    get_or_ne h xs i j (d.0.1, d.1.1) (omega arith) (omega arith)

next-get_or :
    (s : Links) (h a : Ptr) (xs : List Ptr) (i : ℕ)
    → Walk s a (xs ++ h ∷ [])
    → i < length xs
    → s.next (get_or xs i h) ≡ get_or xs (suc i) h
next-get_or s h a [] i p l = absurd (omega arith)
next-get_or s h a (x ∷ []) zero p l = p.1.0.0
next-get_or s h a (x ∷ y ∷ xs) zero p l = p.1.0.0
next-get_or s h a (x ∷ xs) (suc i) p l = next-get_or s h x xs i p.1 (omega arith)

last_of-get_or : (h x : Ptr) (xs : List Ptr) → last_of x xs ≡ get_or (x ∷ xs) (length xs) h
last_of-get_or h x [] = refl
last_of-get_or h x (y ∷ xs) = last_of-get_or h y xs

module _ (s : Links) (h x : Ptr) (xs : List Ptr) (q : IsQueue s h (x ∷ xs)) where
  last : s.prev h ≡ get_or (x ∷ xs) (length xs) h
  last = Walk-last s h (x ∷ xs) h (q.ring) ∙ last_of-get_or h x xs

  next : (i : ℕ) → i < suc (length xs) → s.next (get_or (x ∷ xs) i h) ≡ get_or (x ∷ xs) (suc i) h
  next i l = next-get_or s h h (x ∷ xs) i (q.ring) l

  not_last : (i : ℕ) → i < length xs → (get_or (x ∷ xs) i h == s.prev h) ≡ false
  not_last i l = rw last (
      ==_ne (get_or (x ∷ xs) i h) (get_or (x ∷ xs) (length xs) h)
        (get_or_ne h (x ∷ xs) i (length xs) (q.distinct) l (omega arith)))

  is_last : (i : ℕ) → i ≡ length xs → (get_or (x ∷ xs) i h == s.prev h) ≡ true
  is_last i e =
      rw (last, e) ((==_iff (get_or (x ∷ xs) (length xs) h) (get_or (x ∷ xs) (length xs) h)).1 refl)

  middle_loop_lem :
      (fuel i : ℕ)
      → 2 * i < length xs
      → length xs < 2 * i + 2 * fuel
      → middle_loop fuel h (get_or (x ∷ xs) i h) (get_or (x ∷ xs) (2 * i) h) s
        ≡ some (get_or (x ∷ xs) (suc (length xs) / 2) h)
  unfolding middle_loop
  middle_loop_lem zero i a b = absurd (omega arith)
  middle_loop_lem (suc fuel) i a b =
      let one = next (2 * i) (omega arith) in
      let two = next (suc (2 * i)) (omega arith) in
      let half = next i (omega arith) in
      elim (eq_or_ne (suc (2 * i)) (length xs)) [
        | inl e ↦
            let k : suc (length xs) / 2 ≡ suc i = omega arith in
            rw (one, is_last (suc (2 * i)) e, half, k) refl
        | inr n ↦ elim (eq_or_ne (suc (suc (2 * i))) (length xs)) [
          | inl e ↦
              let k : suc (length xs) / 2 ≡ suc i = omega arith in
              rw
                (
                  one,
                  not_last (suc (2 * i)) (omega arith),
                  two,
                  is_last (suc (suc (2 * i))) e,
                  half,
                  k,
                )
                refl
          | inr m ↦
              let k =
                ap (λ j. get_or (x ∷ xs) j h) {x = suc (suc (2 * i))} {y = 2 * suc i}
                  (omega arith) in
              rw
                (
                  one,
                  not_last (suc (2 * i)) (omega arith),
                  two,
                  not_last (suc (suc (2 * i))) (omega arith),
                  half,
                  k,
                )
                (middle_loop_lem fuel (suc i) (omega arith) (omega arith))
        ]
      ]

  -- `ngx_queue_middle` ends on a queue that is not empty, once its fuel is more than half the number of
  -- elements, and names the element at half that number, rounded down.
  pub middle_lem :
      (fuel : ℕ)
      → length xs < 2 * fuel
      → middle fuel h s ≡ some (get_or (x ∷ xs) (length (x ∷ xs) / 2) h)
  unfolding middle
  middle_lem fuel l = elim (eq_or_ne 0 (length xs)) [
    | inl e ↦ let k : suc (length xs) / 2 ≡ 0 = omega arith in rw (q.ring.0.0, is_last 0 e, k) refl
    | inr n ↦
        rw (q.ring.0.0, not_last 0 (omega arith))
          (middle_loop_lem fuel 0 (omega arith) (omega arith))
  ]
