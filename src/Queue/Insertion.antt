-- ===== src/Queue/Insertion.antt =====
-- Insertion sort of a list, the reference that `ngx_queue_sort` is compared with: its result is in
-- order, and elements that compare equal keep their order.
use mathlib.Core.Bool.{true≢false}
use nginx_comment.Common.{
  ℕ, ◌<◌, ◌≡◌, some, length, refl, sym, ap, ◌∙◌, Bool, true, false, not, List, [], ◌∷◌,
  if◌then◌else◌, Bool-cases, inl, inr, Ptr,
}
use nginx_comment.Queue.{Links, sort}
use nginx_comment.Queue.Ring.{IsQueue}
use nginx_comment.Queue.Sort.{onto, insert_rev, sorted_rev, insertion_sort, sort-IsQueue}

-- No element comes after its right neighbour.
abbrev pub InOrder : (Ptr → Ptr → Bool) → List Ptr → Type 0
InOrder after [] = Unit
InOrder after (x ∷ []) = Unit
InOrder after (x ∷ y ∷ xs) = (after x y ≡ false) × InOrder after (y ∷ xs)

-- The same of a list that is kept backwards.
abbrev InOrderBack : (Ptr → Ptr → Bool) → List Ptr → Type 0
InOrderBack after [] = Unit
InOrderBack after (x ∷ []) = Unit
InOrderBack after (x ∷ y ∷ xs) = (after y x ≡ false) × InOrderBack after (y ∷ xs)

-- The elements of one kind, in their order.
abbrev pub kept : (Ptr → Bool) → List Ptr → List Ptr
kept f [] = []
kept f (x ∷ xs) = if f x then x ∷ kept f xs else kept f xs

module _ (after : Ptr → Ptr → Bool) where
  onto-InOrder :
      (r : Ptr) (rs ys : List Ptr)
      → InOrderBack after (r ∷ rs)
      → InOrder after (r ∷ ys)
      → InOrder after (onto (r ∷ rs) ys)
  onto-InOrder r [] ys h k = k
  onto-InOrder r (u ∷ rs) ys h k = onto-InOrder u rs (r ∷ ys) h.1 (h.0, k)

  module _ (total : (a b : Ptr) → after a b ≡ true → after b a ≡ false) where
    insert_rev-InOrderBack :
        (q : Ptr) (rs : List Ptr) → InOrderBack after rs → InOrderBack after (insert_rev after q rs)
    insert_rev-InOrderBack q [] h = tt
    insert_rev-InOrderBack q (r ∷ []) h = elim (Bool-cases (after r q)) [
      | inl e ↦ rw e (total r q e, tt)
      | inr e ↦ rw e (e, tt)
    ]
    insert_rev-InOrderBack q (r ∷ u ∷ rs) h =
        let rest = insert_rev-InOrderBack q (u ∷ rs) h.1 in
        elim (Bool-cases (after r q)) [
          | inl e ↦ elim (Bool-cases (after u q)) [
            | inl f ↦ rw (e, f) (h.0, onward f rest)
            | inr f ↦ rw (e, f) (total r q e, (f, h.1))
          ]
          | inr e ↦ rw e (e, h)
        ]
      where
        onward :
            after u q ≡ true
            → InOrderBack after (insert_rev after q (u ∷ rs))
            → InOrderBack after (u ∷ insert_rev after q rs)
        onward f k =
            rw (sym (ap (λ b. if not b then q ∷ u ∷ rs else u ∷ insert_rev after q rs) f)) k

    sorted_rev-InOrderBack :
        (rs ys : List Ptr) → InOrderBack after rs → InOrderBack after (sorted_rev after rs ys)
    sorted_rev-InOrderBack rs [] h = h
    sorted_rev-InOrderBack rs (y ∷ ys) h =
        sorted_rev-InOrderBack (insert_rev after y rs) ys (insert_rev-InOrderBack y rs h)

    pub insertion_sort-InOrder : (xs : List Ptr) → InOrder after (insertion_sort after xs)
    insertion_sort-InOrder xs = back (sorted_rev after [] xs) (sorted_rev-InOrderBack [] xs tt)
      where
        back : (rs : List Ptr) → InOrderBack after rs → InOrder after (onto rs [])
        back [] h = tt
        back (r ∷ rs) h = onto-InOrder r rs [] h tt

  -- A kind of which no element comes after another.
  module _ (f : Ptr → Bool)
      (alike : (a b : Ptr) → f a ≡ true → f b ≡ true → after a b ≡ false) where
    kept-insert_rev : (q : Ptr) (rs : List Ptr) → kept f (insert_rev after q rs) ≡ kept f (q ∷ rs)
    kept-insert_rev q [] = refl
    kept-insert_rev q (r ∷ rs) =
        let rest = kept-insert_rev q rs in
        elim (Bool-cases (after r q)) [
          | inl e ↦ elim (Bool-cases (f r)) [
            | inl g ↦ elim (Bool-cases (f q)) [
              | inl k ↦ absurd (true≢false (sym e ∙ alike r q g k))
              | inr k ↦ rw (e, g, k, rest, k) refl
            ]
            | inr g ↦ rw (e, g, rest) refl
          ]
          | inr e ↦ rw e refl
        ]

    kept-onto : (rs ys : List Ptr) → kept f (onto rs ys) ≡ onto (kept f rs) (kept f ys)
    kept-onto [] ys = refl
    kept-onto (r ∷ rs) ys = elim (Bool-cases (f r)) [
      | inl e ↦ rw (kept-onto rs (r ∷ ys), e) refl
      | inr e ↦ rw (kept-onto rs (r ∷ ys), e) refl
    ]

    kept-sorted_rev :
        (rs ys : List Ptr) → kept f (onto (sorted_rev after rs ys) []) ≡ kept f (onto rs ys)
    kept-sorted_rev rs [] = refl
    kept-sorted_rev rs (y ∷ ys) =
        kept-sorted_rev (insert_rev after y rs) ys
        ∙ kept-onto (insert_rev after y rs) ys
        ∙ ap (λ l. onto l (kept f ys)) (kept-insert_rev y rs)
        ∙ sym (kept-onto (y ∷ rs) ys)

    pub kept-insertion_sort : (xs : List Ptr) → kept f (insertion_sort after xs) ≡ kept f xs
    kept-insertion_sort xs = kept-sorted_rev [] xs

-- `ngx_queue_sort` ends once its fuel is more than the number of elements, for any comparison that
-- never puts two elements after each other. The queue then holds its elements in order, and those of
-- any kind whose members compare equal stand in the order in which they stood before.
pub sort-InOrder :
    (fuel : ℕ) (after : Ptr → Ptr → Bool) (f : Ptr → Bool) (s : Links) (h : Ptr) (xs : List Ptr)
    → ((a b : Ptr) → after a b ≡ true → after b a ≡ false)
    → ((a b : Ptr) → f a ≡ true → f b ≡ true → after a b ≡ false)
    → IsQueue s h xs
    → length xs < fuel
    → (s' : Links) × (zs : List Ptr) × (sort fuel after h s ≡ some s')
      × IsQueue s' h zs
      × InOrder after zs
      × (kept f zs ≡ kept f xs)
sort-InOrder fuel after f s h xs total alike q l =
    let (s', e, q') = sort-IsQueue fuel after s h xs q l in
    (
      s',
      insertion_sort after xs,
      e,
      q',
      insertion_sort-InOrder after total xs,
      kept-insertion_sort after f alike xs,
    )
