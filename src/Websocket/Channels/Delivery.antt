-- ===== src/Websocket/Channels/Delivery.antt =====
-- A message goes around a channel.
use mathlib.Core.Bool.{true≢false}
use mathlib.Core.List.{append_assoc, append-nil}
use nginx_comment.Common.{
  ℕ, suc, ◌<◌, ◌≡◌, ◌≢◌, refl, sym, ap, ◌∙◌, true, ==_iff, ==_ne, eq_or_ne, List, [], ◌∷◌, ◌++◌,
  Bool-cases, if_true, if_false, ◌⊎◌, inl, inr, length, take, Bytes, Ptr,
}
use nginx_comment.Connection.{Answer}
use nginx_comment.Connection.Send.{moved}
use nginx_comment.Queue.{Links, remove}
use nginx_comment.Queue.Ring.{Out, IsQueue, last_of, Out-append, Out-last_of, updated_ne}
use nginx_comment.Queue.Change.{remove_lem}
use nginx_comment.Queue.Contents.{remove-IsQueue, Distinct-remove}
use nginx_comment.Queue.Sort.{head_or, neighbours}
use nginx_comment.Queue.Insertion.{kept}
use nginx_comment.Websocket.Channels.{Worker, message_handler, Walked, deliver}
use nginx_comment.Websocket.Channels.Round.{
  Fate, whole, short, lost, fate, survives, Effect, message_handler-Effect,
}
use nginx_comment.Websocket.Channels.Clients.{
  took, takes_all, received, AllSurvive, Out-received, AllReady, AllReady-kept, IsAs, same_by,
}

Out-head_or : (x h : Ptr) (ys : List Ptr) → x ≢ h → Out x ys → x ≢ head_or h ys
Out-head_or x h [] n o = n
Out-head_or x h (y ∷ ys) n o = o.0

-- A removed element still leads on to the one that was behind it.
next-remove :
    (s : Links) (h x : Ptr) (us ys : List Ptr)
    → IsQueue s h (us ++ x ∷ ys)
    → (remove x s).next x ≡ head_or h ys
next-remove s h x us ys q =
    let (a, b, c) = neighbours s h us x ys q in
    let (d, o) = Distinct-remove x us ys (q.distinct.1) in
    let (o1, o2) = Out-append x us ys o in
    let n = Out-last_of x h us c o1 in
    ap (λ l. l.next x) (remove_lem (last_of h us) (head_or h ys) x s b a (Out-head_or x h ys c o2))
    ∙ updated_ne (s.next) (last_of h us) (head_or h ys) x (λ k. n (sym k))
    ∙ b

abbrev pub more : List Ptr → ℕ → ℕ
more [] n = n
more (x ∷ xs) n = suc (more xs n)

module _ (answers : Ptr → Answer) (bytes : Bytes) (head : Ptr) (some_bytes : 0 < length bytes) where
  abbrev pub walk : ℕ → Ptr → Worker → Walked
  walk fuel next w = deliver fuel answers bytes head next w

  -- One client, by its fate.
  module _ (fuel : ℕ) (x : Ptr) (w : Worker) (us ys : List Ptr) where
    next : Worker
    next = message_handler (answers x) bytes x w

    abbrev Stepped : Type 0
    Stepped =
        (walk (suc fuel) x w ≡ walk fuel (head_or head ys) next)
        × IsQueue (next.links) head ((us ++ kept (takes_all answers bytes) (x ∷ [])) ++ ys)

    step_by :
        (f : Fate)
        → fate (answers x) bytes ≡ f
        → survives f ≡ true
        → IsQueue (w.links) head (us ++ x ∷ ys)
        → (w.client x).alive ≡ true
        → Effect f (take (moved ((answers x).last)) bytes) x w next
        → Stepped
    unfolding deliver next
    step_by whole g k q a e =
        let (_, b, c) = neighbours (w.links) head us x ys q in
        (
          if_false _ (==_ne x head c)
              ∙ if_true _ (e.alive ∙ a)
              ∙ ap (λ p. walk fuel p next) (ap (λ l. l.next x) (e.links refl) ∙ b),
          rw (e.links refl, if_true {x = x ∷ []} [] (ap took g), append_assoc us (x ∷ []) ys) q,
        )
    step_by short g k q a e =
        let (_, b, c) = neighbours (w.links) head us x ys q in
        (
          if_false _ (==_ne x head c)
              ∙ if_true _ (e.alive ∙ a)
              ∙ ap (λ p. walk fuel p next)
                  (ap (λ l. l.next x) (e.links refl) ∙ next-remove (w.links) head x us ys q),
          rw (e.links refl, if_false (x ∷ []) {y = []} (ap took g), append-nil us)
              (remove-IsQueue (w.links) head x us ys q),
        )
    step_by lost g k q a e = absurd (true≢false (sym k))

    step_lem :
        IsQueue (w.links) head (us ++ x ∷ ys)
        → AllReady w (x ∷ [])
        → survives (fate (answers x) bytes) ≡ true
        → Stepped
    unfolding next
    step_lem q h k =
        step_by (fate (answers x) bytes) refl k q h.0.0
          (message_handler-Effect (answers x) bytes x w some_bytes h.0.1)

  -- The walk over clients none of which is closed.
  pub record Walking (fuel : ℕ) (w : Worker) (us xs ys : List Ptr) : Type 0 where
    pub behind : Worker
    pub goes : walk (more xs fuel) (head_or head (xs ++ ys)) w ≡ walk fuel (head_or head ys) behind
    pub queue : IsQueue (behind.links) head ((us ++ kept (takes_all answers bytes) xs) ++ ys)
    pub ready : AllReady behind ys
    pub table : behind.table ≡ w.table
    pub same : (p : Ptr) → IsAs behind w p
    pub wire :
        (p : Ptr) → (behind.client p).c.wire ≡ (w.client p).c.wire ++ received answers bytes xs p

  pub walk_lem :
      (fuel : ℕ) (w : Worker) (us xs ys : List Ptr)
      → IsQueue (w.links) head (us ++ (xs ++ ys))
      → AllReady w (xs ++ ys)
      → AllSurvive answers bytes xs
      → Walking fuel w us xs ys
  unfolding next
  walk_lem fuel w us [] ys q h k = record {
    behind = w;
    goes = refl;
    queue = rw (append-nil us) q;
    ready = h;
    table = refl;
    same = λ p. (refl, refl);
    wire = λ p. sym (append-nil ((w.client p).c.wire));
  }
  walk_lem fuel w us (x ∷ xs) ys q h k =
      let one = kept (takes_all answers bytes) (x ∷ []) in
      let (goes, queue) = step_lem (more xs fuel) x w us (xs ++ ys) q (h.0, tt) k.0 in
      let effect = message_handler-Effect (answers x) bytes x w some_bytes h.0.1 in
      let (_, o) = Distinct-remove x us (xs ++ ys) (q.distinct.1) in
      let out = (Out-append x us (xs ++ ys) o).1 in
      let w1 = message_handler (answers x) bytes x w in
      let rest =
        walk_lem fuel w1 (us ++ one) xs ys queue
          (AllReady-kept w w1 x (xs ++ ys) (effect.others) out h.1) k.1 in
      record {
        behind = rest.behind;
        goes = goes ∙ rest.goes;
        queue = rw (sym (kept-cons us x xs)) (rest.queue);
        ready = rest.ready;
        table = rest.table ∙ effect.table;
        same = λ p.
            let (a, t) = rest.same p in
            let (b, u) = same_by w w1 x p (fate (answers x) bytes) effect k.0 (eq_or_ne p x) in
            (a ∙ b, t ∙ u);
        wire = λ p.
            rest.wire p
            ∙ first w1 x xs p (eq_or_ne p x) (effect.wire) (effect.others)
                (Out-append x xs ys out).0;
      }
    where
      kept-cons :
          (us : List Ptr) (x : Ptr) (xs : List Ptr)
          → (us ++ kept (takes_all answers bytes) (x ∷ [])) ++ kept (takes_all answers bytes) xs
            ≡ us ++ kept (takes_all answers bytes) (x ∷ xs)
      kept-cons us x xs = elim (Bool-cases (takes_all answers bytes x)) [
        | inl e ↦ rw e (append_assoc us (x ∷ []) (kept (takes_all answers bytes) xs))
        | inr e ↦ rw e (ap (λ l. l ++ kept (takes_all answers bytes) xs) (append-nil us))
      ]

      first :
          (w1 : Worker) (x : Ptr) (xs : List Ptr) (p : Ptr)
          → (p ≡ x) ⊎ (p ≢ x)
          → (w1.client x).c.wire ≡ (w.client x).c.wire ++ take (moved ((answers x).last)) bytes
          → ((q : Ptr) → q ≢ x → w1.client q ≡ w.client q)
          → Out x xs
          → (w1.client p).c.wire ++ received answers bytes xs p
            ≡ (w.client p).c.wire ++ received answers bytes (x ∷ xs) p
      first w1 x xs p (inl e) f g o = rw e (
          ap (λ l. (w1.client x).c.wire ++ l) (Out-received answers bytes x xs o)
          ∙ append-nil ((w1.client x).c.wire)
          ∙ f
          ∙ ap (λ l. (w.client x).c.wire ++ l) (sym (if_true _ ((==_iff x x).1 refl))))
      first w1 x xs p (inr n) f g o =
          ap (λ k. k.c.wire ++ received answers bytes xs p) (g p n)
          ∙ ap (λ l. (w.client p).c.wire ++ l) (sym (if_false _ (==_ne p x n)))
