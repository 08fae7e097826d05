-- ===== src/Queue.antt =====
-- demo/src/core/ngx_queue.h and ngx_queue.c: the doubly linked queue. A queue is a ring of nodes in
-- memory, of which one, the head, is no element.
pub mod Ring
pub mod Change
pub mod Contents
pub mod Order
pub mod Sort
pub mod Insertion
pub mod Middle
use nginx_comment.Common.{
  ℕ, zero, suc, Bool, Option, none, some, ◌==◌, leb, not, if◌then◌else◌, Ptr,
}

-- The two fields of every `ngx_queue_t`.
pub record Links : Type 0 where
  pub prev : Ptr → Ptr
  pub next : Ptr → Ptr

abbrev pub updated : (Ptr → Ptr) → Ptr → Ptr → Ptr → Ptr
updated f p v q = if q == p then v else f q

-- `(p)->prev = v` and `(p)->next = v`
abbrev pub set_prev : Ptr → Ptr → Links → Links
set_prev p v s = record s { prev = updated s.prev p v }

abbrev pub set_next : Ptr → Ptr → Links → Links
set_next p v s = record s { next = updated s.next p v }

-- `ngx_queue_init`
unfoldable pub init : Ptr → Links → Links
init q s = set_next q q (set_prev q q s)

-- `ngx_queue_empty`
abbrev pub is_empty : Ptr → Links → Bool
is_empty h s = h == s.prev h

-- `ngx_queue_insert_head`, and `ngx_queue_insert_after`, which is the same.
unfoldable pub insert_head : Ptr → Ptr → Links → Links
insert_head h x s =
    let s1 = set_next x (s.next h) s in
    let s2 = set_prev (s1.next x) x s1 in let s3 = set_prev x h s2 in set_next h x s3

-- `ngx_queue_insert_tail`
unfoldable pub insert_tail : Ptr → Ptr → Links → Links
insert_tail h x s =
    let s1 = set_prev x (s.prev h) s in
    let s2 = set_next (s1.prev x) x s1 in let s3 = set_next x h s2 in set_prev h x s3

-- `ngx_queue_remove`, without NGX_DEBUG.
unfoldable pub remove : Ptr → Links → Links
remove x s = let s1 = set_prev (s.next x) (s.prev x) s in set_next (s1.prev x) (s1.next x) s1

-- The loop of `ngx_queue_middle`, on fuel: none where it does not end.
unfoldable pub middle_loop : ℕ → Ptr → Ptr → Ptr → Links → Option Ptr
middle_loop zero queue middle next s = none
middle_loop (suc fuel) queue middle next s =
    let middle' = s.next middle in
    let next' = s.next next in
    let next'' = s.next next' in
    let rest = middle_loop fuel queue middle' next'' s in
    if next' == s.prev queue
    then some middle'
    else if next'' == s.prev queue
    then some middle'
    else rest

-- `ngx_queue_middle`
unfoldable pub middle : ℕ → Ptr → Links → Option Ptr
unfolding middle_loop
middle fuel queue s =
    if s.next queue == s.prev queue
    then some (s.next queue)
    else middle_loop fuel queue (s.next queue) (s.next queue) s

-- The inner loop of `ngx_queue_sort`: where `q` goes, from `prev` backwards. `after` is whether
-- `cmp(prev, q) > 0`.
unfoldable pub place : ℕ → (Ptr → Ptr → Bool) → Ptr → Ptr → Ptr → Links → Option Ptr
place zero after queue q prev s = none
place (suc fuel) after queue q prev s =
    let rest = place fuel after queue q (s.prev prev) s in
    if not (after prev q) then some prev else if s.prev prev == queue then some queue else rest

-- The outer loop.
unfoldable pub sort_loop : ℕ → ℕ → (Ptr → Ptr → Bool) → Ptr → Ptr → Links → Option Links
unfolding place
sort_loop zero room after queue q s = none
sort_loop (suc fuel) room after queue q s =
    let s1 = remove q s in
    if q == queue then some s else elim (place room after queue q (s.prev q) s1) [
      | none ↦ none
      | some p ↦ sort_loop fuel room after queue (s.next q) (insert_head p q s1)
    ]

-- `ngx_queue_sort`, with as much fuel for each loop.
unfoldable pub sort : ℕ → (Ptr → Ptr → Bool) → Ptr → Links → Option Links
unfolding sort_loop
sort fuel after queue s =
    if s.next queue == s.prev queue
    then some s
    else sort_loop fuel fuel after queue (s.next (s.next queue)) s
