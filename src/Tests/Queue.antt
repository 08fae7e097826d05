-- ===== src/Tests/Queue.antt =====
-- A queue of three nodes, put together from nothing.
use nginx_comment.Common.{◌≡◌, Bool, true, false, some, List, [], ◌∷◌, ◌==◌, ltb, arith, Ptr}
use nginx_comment.Queue.{Links, init, insert_head, insert_tail, sort}
use nginx_comment.Queue.Ring.{IsQueue}
use nginx_comment.Queue.Contents.{insert_head-IsQueue, insert_tail-IsQueue}
use nginx_comment.Queue.Order.{init-IsQueue}
use nginx_comment.Queue.Insertion.{InOrder, kept, sort-InOrder}

abbrev blank : Links
blank = record { prev = λ p. 0; next = λ p. 0 }

abbrev one : Links
one = insert_tail 1 8 (init 1 blank)

one-IsQueue : IsQueue one 1 (8 ∷ [])
one-IsQueue =
    insert_tail-IsQueue (init 1 blank) 1 8 [] (init-IsQueue blank 1) ((λ e. omega arith), tt)

abbrev two : Links
two = insert_tail 1 5 one

-- The third node goes between the two.
abbrev pub three : Links
three = insert_head 8 3 two

pub three-IsQueue : IsQueue three 1 (8 ∷ 3 ∷ 5 ∷ [])
three-IsQueue =
    insert_head-IsQueue two 1 3 (8 ∷ []) (5 ∷ [])
      (insert_tail-IsQueue one 1 5 (8 ∷ []) one-IsQueue
        ((λ e. omega arith), ((λ e. omega arith), tt)))
      ((λ e. omega arith), ((λ e. omega arith), ((λ e. omega arith), tt)))

abbrev larger : Ptr → Ptr → Bool
larger a b = ltb b a

larger-total : (a b : Ptr) → larger a b ≡ true → larger b a ≡ false
larger-total a b h = ground arith

five-alike : (a b : Ptr) → (a == 5) ≡ true → (b == 5) ≡ true → larger a b ≡ false
five-alike a b h k = ground arith

sort-InOrder_example :
    (s : Links) × (zs : List Ptr) × (sort 4 larger 1 three ≡ some s)
    × IsQueue s 1 zs
    × InOrder larger zs
    × (kept (λ a. a == 5) zs ≡ kept (λ a. a == 5) (8 ∷ 3 ∷ 5 ∷ []))
sort-InOrder_example =
    sort-InOrder 4 larger (λ a. a == 5) three 1 (8 ∷ 3 ∷ 5 ∷ []) larger-total five-alike
      three-IsQueue (omega arith)
