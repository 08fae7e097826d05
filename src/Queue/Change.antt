-- ===== src/Queue/Change.antt =====
-- A node is put between two neighbours of a ring, or taken out from between them.
use mathlib.Core.Path.{fun_ext}
use nginx_comment.Common.{◌≡◌, ◌≢◌, refl, sym, ap, ◌∙◌, List, ◌∷◌, ◌++◌, arith, Ptr}
use nginx_comment.Queue.{Links, updated, set_prev, set_next, insert_head, insert_tail, remove}
use nginx_comment.Queue.Ring.{
  Edge, Walk, Out, last_of, Passed, append-Walk, updated_self, updated_ne, keep_next, keep_prev,
}

-- The two ends of a ring at a place: the path up to `p`, the neighbours `p` and `n`, and the path
-- behind `n`, which comes back to the head.
pub record Place (s : Links) (h p n : Ptr) (xs ys : List Ptr) : Type 0 where
  pub before : Walk s h xs
  pub last : last_of h xs ≡ p
  pub edge : Edge s p n
  pub behind : Walk s n ys
  pub p_passed : Passed p h xs
  pub p_behind : Passed p n ys
  pub n_before : Out n xs
  pub n_behind : Out n ys

-- A node that is nowhere at a place.
pub record IsNew (x h p n : Ptr) (xs ys : List Ptr) : Type 0 where
  pub not_p : x ≢ p
  pub not_n : x ≢ n
  pub passed : Passed x h xs
  pub behind : Passed x n ys
  pub out : Out x xs
  pub out_behind : Out x ys

-- The links behind an insertion between `p` and `n`, in either order of the writes.
abbrev pub linked : Ptr → Ptr → Ptr → Links → Links
linked p n x s = set_next p x (set_prev x p (set_prev n x (set_next x n s)))

insert_head_lem : (p n x : Ptr) (s : Links) → s.next p ≡ n → insert_head p x s ≡ linked p n x s
unfolding insert_head
insert_head_lem p n x s e = rw (updated_self s.next x (s.next p), e) refl

module _ (s : Links) (h p n x : Ptr) (xs ys : List Ptr) (at : Place s h p n xs ys) where
  pub linked-Walk : IsNew x h p n xs ys → Walk (linked p n x s) h (xs ++ x ∷ n ∷ ys)
  linked-Walk new =
      let s1 = set_next x n s in
      let s2 = set_prev n x s1 in
      let s3 = set_prev x p s2 in
      append-Walk (linked p n x s) h xs (x ∷ n ∷ ys)
        (keep_next s3 p x h xs at.p_passed (
          keep_prev s2 x p h xs new.out
            (keep_prev s1 n x h xs at.n_before (keep_next s x n h xs new.passed at.before))))
        (rw (at.last) (
          (ground arith, ground (arith, new.not_n)),
          (
            (ground (arith, new.not_p), ground (arith, new.not_n)),
            keep_next s3 p x n ys at.p_behind (
                keep_prev s2 x p n ys new.out_behind
                  (keep_prev s1 n x n ys at.n_behind (keep_next s x n n ys new.behind at.behind))),
          ),
        ))

  pub insert_head-Walk : IsNew x h p n xs ys → Walk (insert_head p x s) h (xs ++ x ∷ n ∷ ys)
  insert_head-Walk new = rw (insert_head_lem p n x s at.edge.0) (linked-Walk new)

-- The writes of `ngx_queue_insert_tail` come in another order.
pub insert_tail_lem :
    (h p x : Ptr) (s : Links) → s.prev h ≡ p → x ≢ p → x ≢ h → insert_tail h x s ≡ linked p h x s
unfolding insert_tail
insert_tail_lem h p x s e a b =
    let next =
      fun_ext {f = updated (updated s.next p x) x h} {g = updated (updated s.next x h) p x}
        (λ q. ground arith) in
    let prev =
      fun_ext {f = updated (updated s.prev x p) h x} {g = updated (updated s.prev h x) x p}
        (λ q. ground arith) in
    rw (updated_self s.prev x (s.prev h), e, next, prev) refl

-- The links behind a removal between `p` and `n`.
abbrev pub unlinked : Ptr → Ptr → Links → Links
unlinked p n s = set_next p n (set_prev n p s)

pub remove_lem :
    (p n x : Ptr) (s : Links) → s.next x ≡ n → s.prev x ≡ p → x ≢ n → remove x s ≡ unlinked p n s
unfolding remove
remove_lem p n x s e f a = rw e (
    ap (λ q. set_next (updated s.prev n q x) n (set_prev n q s)) f
    ∙ ap (λ q. set_next q n (set_prev n p s)) (updated_ne s.prev n p x (λ k. a (sym k)) ∙ f))

module _ (s : Links) (h p n x : Ptr) (xs ys : List Ptr) where
  pub unlinked-Walk :
      last_of h xs ≡ p
      → Walk s h xs
      → Walk s n ys
      → Passed p h xs
      → Passed p n ys
      → Out n xs
      → Out n ys
      → Walk (unlinked p n s) h (xs ++ n ∷ ys)
  unlinked-Walk l a b c d e f =
      let s1 = set_prev n p s in
      append-Walk (unlinked p n s) h xs (n ∷ ys)
        (keep_next s1 p n h xs c (keep_prev s n p h xs e a))
        (rw l ((ground arith, ground arith), keep_next s1 p n n ys d (keep_prev s n p n ys f b)))
