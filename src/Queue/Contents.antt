-- ===== src/Queue/Contents.antt =====
-- The operations on a queue as operations on the list of its elements.
use mathlib.Core.List.{append_assoc, append-nil}
use nginx_comment.Common.{◌≡◌, ◌≢◌, refl, sym, ap, ◌∙◌, List, [], ◌∷◌, ◌++◌, Ptr}
use nginx_comment.Queue.{Links, insert_head, insert_tail, remove}
use nginx_comment.Queue.Ring.{
  Walk, Out, Distinct, IsQueue, last_of, Passed, Walk-append, Out-append, append-Out, Out-Passed,
  Out-last_of, last_of-Passed,
}
use nginx_comment.Queue.Change.{
  Place, IsNew, linked-Walk, insert_head-Walk, insert_tail_lem, remove_lem, unlinked-Walk,
}

Distinct-append : (xs ys : List Ptr) → Distinct (xs ++ ys) → Distinct xs × Distinct ys
Distinct-append [] ys d = (tt, d)
Distinct-append (x ∷ xs) ys d =
    let (l, r) = Distinct-append xs ys d.1 in (((Out-append x xs ys d.0).0, l), r)

Distinct-rotated : (h : Ptr) (ws : List Ptr) → Distinct (h ∷ ws) → Distinct (ws ++ h ∷ [])
Distinct-rotated h [] d = (tt, tt)
Distinct-rotated h (w ∷ ws) ((n, o), (o', d)) =
    (append-Out w ws (h ∷ []) o' (λ e. n (sym e), tt), Distinct-rotated h ws (o, d))

-- Where two lists have no node in common, the last node of one is not in the other.
last_of-Out : (n : Ptr) (ys : List Ptr) (x : Ptr) → Out x (n ∷ ys) → last_of n ys ≢ x
last_of-Out n ys x o e = Out-last_of x n ys o.0 o.1 (sym e)

Out-last_of_behind :
    (xs : List Ptr) (n : Ptr) (ys : List Ptr) → Distinct (xs ++ n ∷ ys) → Out (last_of n ys) xs
Out-last_of_behind [] n ys d = tt
Out-last_of_behind (x ∷ xs) n ys d =
    (last_of-Out n ys x (Out-append x xs (n ∷ ys) d.0).1, Out-last_of_behind xs n ys d.1)

Out-last_of_before :
    (x : Ptr) (xs ys : List Ptr) → Distinct (x ∷ (xs ++ ys)) → Out (last_of x xs) ys
Out-last_of_before x [] ys d = d.0
Out-last_of_before x (y ∷ xs) ys d = Out-last_of_before y xs ys d.1

Out-middle : (xs : List Ptr) (n : Ptr) (ys : List Ptr) → Distinct (xs ++ n ∷ ys) → Out n xs
Out-middle [] n ys d = tt
Out-middle (x ∷ xs) n ys d =
    ((λ e. (Out-append x xs (n ∷ ys) d.0).1.0 (sym e)), Out-middle xs n ys d.1)

Passed-behind :
    (h : Ptr) (xs : List Ptr) (n : Ptr) (ys : List Ptr)
    → last_of n ys ≡ h
    → Distinct (xs ++ n ∷ ys)
    → Passed (last_of h xs) n ys
Passed-behind h [] n ys e d = rw (sym e) (last_of-Passed n ys d)
Passed-behind h (x ∷ xs) n ys e d =
    let o = Out-last_of_before x xs (n ∷ ys) d in Out-Passed (last_of x xs) n ys o.0 o.1

-- A place in a ring, which ends in the head.
pub Place-at :
    (s : Links) (h : Ptr) (xs : List Ptr) (n : Ptr) (ys : List Ptr)
    → last_of n ys ≡ h
    → Distinct (xs ++ n ∷ ys)
    → Walk s h (xs ++ n ∷ ys)
    → Place s h (last_of h xs) n xs ys
Place-at s h xs n ys e d r =
    let (l, (k, m)) = Walk-append s h xs (n ∷ ys) r in
    let (dx, (on, dy)) = Distinct-append xs (n ∷ ys) d in
    let oh : Out h xs = rw (sym e) (Out-last_of_behind xs n ys d) in
    record {
      before = l;
      last = refl;
      edge = k;
      behind = m;
      p_passed = last_of-Passed h xs (oh, dx);
      p_behind = Passed-behind h xs n ys e d;
      n_before = Out-middle xs n ys d;
      n_behind = on;
    }

pub IsNew-at :
    (x h : Ptr) (xs : List Ptr) (n : Ptr) (ys : List Ptr)
    → x ≢ h
    → Out x (xs ++ n ∷ ys)
    → IsNew x h (last_of h xs) n xs ys
IsNew-at x h xs n ys e o =
    let (l, (k, m)) = Out-append x xs (n ∷ ys) o in
    record {
      not_p = Out-last_of x h xs e l;
      not_n = k;
      passed = Out-Passed x h xs e l;
      behind = Out-Passed x n ys k m;
      out = l;
      out_behind = m;
    }

last_of-append : (a : Ptr) (xs : List Ptr) (h : Ptr) → last_of a (xs ++ h ∷ []) ≡ h
last_of-append a [] h = refl
last_of-append a (x ∷ xs) h = last_of-append x xs h

-- Behind any place of a ring comes a node, and the head at the end.
abbrev Behind : List Ptr → Ptr → Type 0
Behind ys h = (n : Ptr) × (zs : List Ptr) × (ys ++ h ∷ [] ≡ n ∷ zs) × (last_of n zs ≡ h)

behind : (ys : List Ptr) (h : Ptr) → Behind ys h
behind [] h = (h, [], refl, refl)
behind (y ∷ ys) h = (y, ys ++ h ∷ [], refl, last_of-append y ys h)

pub Distinct-insert :
    (x : Ptr) (xs ys : List Ptr) → Distinct (xs ++ ys) → Out x (xs ++ ys) → Distinct (xs ++ x ∷ ys)
Distinct-insert x [] ys d o = (o, d)
Distinct-insert x (z ∷ xs) ys d o =
    let (l, r) = Out-append z xs ys d.0 in
    (append-Out z xs (x ∷ ys) l ((λ e. o.0 (sym e)), r), Distinct-insert x xs ys d.1 o.1)

pub Distinct-remove :
    (x : Ptr) (xs ys : List Ptr) → Distinct (xs ++ x ∷ ys) → Distinct (xs ++ ys) × Out x (xs ++ ys)
Distinct-remove x [] ys d = (d.1, d.0)
Distinct-remove x (z ∷ xs) ys d =
    let (l, r) = Out-append z xs (x ∷ ys) d.0 in
    let (d', o) = Distinct-remove x xs ys d.1 in
    ((append-Out z xs ys l r.1, d'), ((λ e. r.0 (sym e)), o))

-- `ngx_queue_insert_head` and `ngx_queue_insert_after`: on the ring of a queue, a node that is not in
-- it comes directly behind the node that is named, the head or any element, and all else stays.
pub insert_head-IsQueue :
    (s : Links) (h x : Ptr) (xs ys : List Ptr)
    → IsQueue s h (xs ++ ys)
    → Out x (h ∷ (xs ++ ys))
    → IsQueue (insert_head (last_of h xs) x s) h (xs ++ x ∷ ys)
insert_head-IsQueue s h x xs ys q o =
    let (n, zs, e, l) = behind ys h in
    let all : (xs ++ ys) ++ h ∷ [] ≡ xs ++ n ∷ zs =
      append_assoc xs ys (h ∷ []) ∙ ap (λ t. xs ++ t) e in
    let ring : Walk s h (xs ++ n ∷ zs) = rw (sym all) (q.ring) in
    let distinct : Distinct (xs ++ n ∷ zs) =
      rw (sym all) (Distinct-rotated h (xs ++ ys) (q.distinct)) in
    let out : Out x (xs ++ n ∷ zs) =
      rw (sym all) (append-Out x (xs ++ ys) (h ∷ []) o.1 (o.0, tt)) in
    let s' = insert_head (last_of h xs) x s in
    let path =
      insert_head-Walk s h (last_of h xs) n x xs zs (Place-at s h xs n zs l distinct ring)
        (IsNew-at x h xs n zs o.0 out) in
    record {
      ring = rw (append_assoc xs (x ∷ ys) (h ∷ []), e) path;
      distinct = Distinct-insert x (h ∷ xs) ys (q.distinct) ((λ k. o.0 k), o.1);
    }

-- `ngx_queue_insert_tail`: a node that is not in the queue becomes its last element.
pub insert_tail-IsQueue :
    (s : Links) (h x : Ptr) (xs : List Ptr)
    → IsQueue s h xs
    → Out x (h ∷ xs)
    → IsQueue (insert_tail h x s) h (xs ++ x ∷ [])
insert_tail-IsQueue s h x xs q o =
    let distinct = Distinct-rotated h xs (q.distinct) in
    let at = Place-at s h xs h [] refl distinct (q.ring) in
    let out = append-Out x xs (h ∷ []) o.1 (o.0, tt) in
    let new = IsNew-at x h xs h [] o.0 out in
    record {
      ring =
          rw
            (
              append_assoc xs (x ∷ []) (h ∷ []),
              insert_tail_lem h (last_of h xs) x s (at.edge.1) (new.not_p) (o.0),
            )
            (linked-Walk s h (last_of h xs) h x xs [] at new);
      distinct =
          Distinct-insert x (h ∷ xs) [] (rw (append-nil xs) (q.distinct))
            (rw (append-nil xs) ((λ k. o.0 k), o.1));
    }

-- `ngx_queue_remove`: wherever an element stands, it leaves the queue and the others stay in order.
pub remove-IsQueue :
    (s : Links) (h x : Ptr) (xs ys : List Ptr)
    → IsQueue s h (xs ++ x ∷ ys)
    → IsQueue (remove x s) h (xs ++ ys)
remove-IsQueue s h x xs ys q =
    let (n, zs, e, l) = behind ys h in
    let all : (xs ++ x ∷ ys) ++ h ∷ [] ≡ xs ++ x ∷ n ∷ zs =
      append_assoc xs (x ∷ ys) (h ∷ []) ∙ ap (λ t. xs ++ x ∷ t) e in
    let ring : Walk s h (xs ++ x ∷ n ∷ zs) = rw (sym all) (q.ring) in
    let distinct : Distinct (xs ++ x ∷ n ∷ zs) =
      rw (sym all) (Distinct-rotated h (xs ++ x ∷ ys) (q.distinct)) in
    let (d, o) = Distinct-remove x xs (n ∷ zs) distinct in
    let (before, (edge, (edge', after))) = Walk-append s h xs (x ∷ n ∷ zs) ring in
    let (ob, (on, oz)) = Out-append x xs (n ∷ zs) o in
    let (dx, (dn, dz)) = Distinct-append xs (n ∷ zs) d in
    let oh : Out h xs = rw (sym l) (Out-last_of_behind xs n zs d) in
    let path =
      unlinked-Walk s h (last_of h xs) n x xs zs refl before after (last_of-Passed h xs (oh, dx))
        (Passed-behind h xs n zs l d) (Out-middle xs n zs d) dn in
    record {
      ring =
          rw (append_assoc xs ys (h ∷ []), e, remove_lem (last_of h xs) n x s (edge'.0) (edge.1) on)
            path;
      distinct = (Distinct-remove x (h ∷ xs) ys (q.distinct)).0;
    }
