-- ===== src/Queue/Sort.antt =====
-- `ngx_queue_sort` against insertion sort on lists. The part that is sorted already is kept nearest
-- element first, the way the inner loop walks it.
use mathlib.Core.List.{append_assoc}
use nginx_comment.Common.{
  ℕ, zero, suc, ◌+◌, ◌<◌, ◌≡◌, ◌≢◌, refl, sym, ap, ◌∙◌, Bool, not, some, List, [], ◌∷◌, ◌++◌,
  length, arith, ==_iff, ==_ne, if◌then◌else◌, Bool-cases, inl, inr, Ptr,
}
use nginx_comment.Queue.{Links, insert_head, remove, place, sort_loop, sort}
use nginx_comment.Queue.Ring.{Walk, IsQueue, last_of, Walk-append, Out-append, Out-last_of}
use nginx_comment.Queue.Contents.{insert_head-IsQueue, remove-IsQueue, Distinct-remove}
use nginx_comment.Queue.Order.{Walk-last}

abbrev pub onto : List Ptr → List Ptr → List Ptr
onto [] ys = ys
onto (r ∷ rs) ys = onto rs (r ∷ ys)

abbrev pub insert_rev : (Ptr → Ptr → Bool) → Ptr → List Ptr → List Ptr
insert_rev after q [] = q ∷ []
insert_rev after q (r ∷ rs) = if not (after r q) then q ∷ r ∷ rs else r ∷ insert_rev after q rs

abbrev pub sorted_rev : (Ptr → Ptr → Bool) → List Ptr → List Ptr → List Ptr
sorted_rev after rs [] = rs
sorted_rev after rs (y ∷ ys) = sorted_rev after (insert_rev after y rs) ys

-- Insertion sort of a list.
abbrev pub insertion_sort : (Ptr → Ptr → Bool) → List Ptr → List Ptr
insertion_sort after xs = onto (sorted_rev after [] xs) []

abbrev pub head_or : Ptr → List Ptr → Ptr
head_or h [] = h
head_or h (x ∷ xs) = x

onto-append : (rs ys zs : List Ptr) → onto rs (ys ++ zs) ≡ onto rs ys ++ zs
onto-append [] ys zs = refl
onto-append (r ∷ rs) ys zs = onto-append rs (r ∷ ys) zs

last_of-snoc : (a x : Ptr) (xs : List Ptr) → last_of a (xs ++ x ∷ []) ≡ x
last_of-snoc a x [] = refl
last_of-snoc a x (y ∷ xs) = last_of-snoc y x xs

last_of-onto : (h : Ptr) (rs : List Ptr) → last_of h (onto rs []) ≡ head_or h rs
last_of-onto h [] = refl
last_of-onto h (r ∷ rs) = rw (onto-append rs [] (r ∷ [])) (last_of-snoc h r (onto rs []))

module _ (s : Links) (h : Ptr) where
  -- The neighbours of an element.
  pub neighbours :
      (xs : List Ptr) (x : Ptr) (ys : List Ptr)
      → IsQueue s h (xs ++ x ∷ ys)
      → (s.prev x ≡ last_of h xs) × (s.next x ≡ head_or h ys) × (x ≢ h)
  neighbours xs x ys q =
      let ring : Walk s h (xs ++ (x ∷ ys ++ h ∷ [])) =
        rw (sym (append_assoc xs (x ∷ ys) (h ∷ []))) (q.ring) in
      let (a, (b, c)) = Walk-append s h xs (x ∷ ys ++ h ∷ []) ring in
      let (d, o) = Out-append h xs (x ∷ ys) (q.distinct.0) in (b.1, next ys c, λ e. o.0 (sym e))
    where
      next : (ys : List Ptr) → Walk s x (ys ++ h ∷ []) → s.next x ≡ head_or h ys
      next [] p = p.0.0
      next (y ∷ ys) p = p.0.0

  pub neighbours-onto :
      (rs : List Ptr) (x : Ptr) (ys : List Ptr)
      → IsQueue s h (onto rs (x ∷ ys))
      → (s.prev x ≡ head_or h rs) × (s.next x ≡ head_or h ys) × (x ≢ h)
  neighbours-onto rs x ys q =
      let (a, b, c) = neighbours (onto rs []) x ys (rw (sym (onto-append rs [] (x ∷ ys))) q) in
      (a ∙ last_of-onto h rs, b, c)

-- Where the inner loop puts an element.
pub record Placed (after : Ptr → Ptr → Bool) (h q p : Ptr) (rs ys : List Ptr) : Type 0 where
  pub nearer : List Ptr
  pub passed : List Ptr
  pub at : p ≡ head_or h nearer
  pub before : onto rs ys ≡ onto nearer passed
  pub behind : onto (insert_rev after q rs) ys ≡ onto nearer (q ∷ passed)

pub place-Placed :
    (fuel : ℕ) (after : Ptr → Ptr → Bool) (s : Links) (h q r : Ptr) (rs ys : List Ptr)
    → IsQueue s h (onto (r ∷ rs) ys)
    → length rs < fuel
    → (p : Ptr) × (place fuel after h q r s ≡ some p) × Placed after h q p (r ∷ rs) ys
unfolding place
place-Placed zero after s h q r rs ys i f = absurd (omega arith)
place-Placed (suc fuel) after s h q r [] ys i f =
    let (a, b, c) = neighbours-onto s h [] r ys i in
    elim (Bool-cases (after r q)) [
      | inl e ↦
          rw (e, a, (==_iff h h).1 refl)
            (
              h,
              refl,
              record { nearer = []; passed = r ∷ ys; at = refl; before = refl; behind = rw e refl },
            )
      | inr e ↦ rw e (
        r,
        refl,
        record { nearer = r ∷ []; passed = ys; at = refl; before = refl; behind = rw e refl },
      )
    ]
place-Placed (suc fuel) after s h q r (u ∷ rs) ys i f =
    let (a, b, c) = neighbours-onto s h (u ∷ rs) r ys i in
    let (a', b', c') = neighbours-onto s h rs u (r ∷ ys) i in
    let (p, k, g) = place-Placed fuel after s h q u rs (r ∷ ys) i (omega arith) in
    elim (Bool-cases (after r q)) [
      | inl e ↦
          rw (e, a, ==_ne u h c')
            (
              p,
              k,
              record {
                nearer = g.nearer;
                passed = g.passed;
                at = g.at;
                before = g.before;
                behind = rw e (g.behind);
              },
            )
      | inr e ↦ rw e (
        r,
        refl,
        record { nearer = r ∷ u ∷ rs; passed = ys; at = refl; before = refl; behind = rw e refl },
      )
    ]

-- One round of the outer loop.
round-IsQueue :
    (room : ℕ) (after : Ptr → Ptr → Bool) (s : Links) (h r y : Ptr) (rs ys : List Ptr)
    → IsQueue s h (onto (r ∷ rs) (y ∷ ys))
    → length rs < room
    → (p : Ptr) × (place room after h y (s.prev y) (remove y s) ≡ some p)
      × IsQueue (insert_head p y (remove y s)) h (onto (insert_rev after y (r ∷ rs)) ys)
round-IsQueue room after s h r y rs ys i f =
    let (a, b, c) = neighbours-onto s h (r ∷ rs) y ys i in
    let us = onto (r ∷ rs) [] in
    let i' : IsQueue s h (us ++ y ∷ ys) = rw (sym (onto-append (r ∷ rs) [] (y ∷ ys))) i in
    let rest = remove-IsQueue s h y us ys i' in
    let (_, o) = Distinct-remove y (h ∷ us) ys (i'.distinct) in
    let joined : us ++ ys ≡ onto (r ∷ rs) ys = sym (onto-append (r ∷ rs) [] ys) in
    let (p, k, g) = place-Placed room after (remove y s) h y r rs ys (rw (sym joined) rest) f in
    let vs = onto (g.nearer) [] in
    let same : us ++ ys ≡ vs ++ g.passed =
      joined ∙ g.before ∙ onto-append (g.nearer) [] (g.passed) in
    let done =
      insert_head-IsQueue (remove y s) h y vs (g.passed) (rw (sym same) rest)
        ((λ e. o.0 e), rw (sym same) (o.1)) in
    let result : insert_head p y (remove y s) ≡ insert_head (last_of h vs) y (remove y s) =
      ap (λ u. insert_head u y (remove y s)) (g.at ∙ sym (last_of-onto h (g.nearer))) in
    rw a (p, k, rw (g.behind, onto-append (g.nearer) [] (y ∷ g.passed), result) done)

length-insert_rev :
    (after : Ptr → Ptr → Bool) (q : Ptr) (rs : List Ptr)
    → length (insert_rev after q rs) ≡ suc (length rs)
length-insert_rev after q [] = refl
length-insert_rev after q (r ∷ rs) = grind (arith, length-insert_rev after q rs, after r q)

insert_rev-cons :
    (after : Ptr → Ptr → Bool) (q : Ptr) (rs : List Ptr)
    → (r : Ptr) × (us : List Ptr) × (insert_rev after q rs ≡ r ∷ us)
insert_rev-cons after q [] = (q, [], refl)
insert_rev-cons after q (r ∷ rs) = elim (Bool-cases (after r q)) [
  | inl e ↦ (r, insert_rev after q rs, rw e refl)
  | inr e ↦ (q, r ∷ rs, rw e refl)
]

-- The outer loop, from a place where `rs` is sorted and `ys` is to come.
pub sort_loop-IsQueue :
    (fuel room : ℕ) (after : Ptr → Ptr → Bool) (s : Links) (h r : Ptr) (rs ys : List Ptr)
    → IsQueue s h (onto (r ∷ rs) ys)
    → length ys < fuel
    → length rs + length ys < room
    → (s' : Links) × (sort_loop fuel room after h (head_or h ys) s ≡ some s')
      × IsQueue s' h (onto (sorted_rev after (r ∷ rs) ys) [])
unfolding sort_loop
sort_loop-IsQueue zero room after s h r rs ys i f g = absurd (omega arith)
sort_loop-IsQueue (suc fuel) room after s h r rs [] i f g = rw ((==_iff h h).1 refl) (s, refl, i)
sort_loop-IsQueue (suc fuel) room after s h r rs (y ∷ ys) i f g =
    let (a, b, c) = neighbours-onto s h (r ∷ rs) y ys i in
    let (p, k, q) = round-IsQueue room after s h r y rs ys i (omega arith) in
    let (r', us, e) = insert_rev-cons after y (r ∷ rs) in
    let size = length-insert_rev after y (r ∷ rs) in
    let same : length (r' ∷ us) ≡ suc (suc (length rs)) = ap length (sym e) ∙ size in
    let next = insert_head p y (remove y s) in
    let rest =
      sort_loop-IsQueue fuel room after next h r' us ys (rw (sym e) q) (omega arith)
        (omega arith) in
    rw (==_ne y h c, k, b, e) rest

-- The whole sort.
pub sort-IsQueue :
    (fuel : ℕ) (after : Ptr → Ptr → Bool) (s : Links) (h : Ptr) (xs : List Ptr)
    → IsQueue s h xs
    → length xs < fuel
    → (s' : Links) × (sort fuel after h s ≡ some s') × IsQueue s' h (insertion_sort after xs)
unfolding sort
sort-IsQueue fuel after s h [] i f =
    rw ((==_iff (s.next h) (s.prev h)).1 (i.ring.0.0 ∙ sym (i.ring.0.1))) (s, refl, i)
sort-IsQueue fuel after s h (x ∷ []) i f =
    rw ((==_iff (s.next h) (s.prev h)).1 (i.ring.0.0 ∙ sym (i.ring.1.0.1))) (s, refl, i)
sort-IsQueue fuel after s h (x ∷ y ∷ ys) i f =
    let e = Walk-last s h (x ∷ y ∷ ys) h (i.ring) in
    let n = Out-last_of x y ys (i.distinct.1.0.0) (i.distinct.1.0.1) in
    let (s', k, q) =
      sort_loop-IsQueue fuel fuel after s h x [] (y ∷ ys) i (omega arith) (omega arith) in
    rw (i.ring.0.0, e, ==_ne x (last_of y ys) n, i.ring.1.0.0) (s', k, q)
