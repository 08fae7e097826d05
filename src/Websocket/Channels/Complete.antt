-- ===== src/Websocket/Channels/Complete.antt =====
-- The walk of `ngx_websocket_process_messages` over a whole channel.
use mathlib.Core.List.{append-nil}
use nginx_comment.Common.{
  ℕ, zero, suc, ◌<◌, ◌≡◌, refl, sym, ap, ◌∙◌, ==_iff, ==_ne, List, [], ◌∷◌, ◌++◌, if_true, if_false,
  arith, length, take, Bytes, Ptr,
}
use nginx_comment.Connection.{Answer}
use nginx_comment.Connection.Send.{moved}
use nginx_comment.Queue.{Links}
use nginx_comment.Queue.Ring.{IsQueue}
use nginx_comment.Queue.Sort.{head_or, neighbours}
use nginx_comment.Queue.Insertion.{kept}
use nginx_comment.Websocket.Channels.{Worker, message_handler, done, freed, deliver}
use nginx_comment.Websocket.Channels.Round.{lost, fate, Effect, message_handler-Effect}
use nginx_comment.Websocket.Channels.Clients.{takes_all, received, AllSurvive, AllReady, IsAs}
use nginx_comment.Websocket.Channels.Delivery.{more, walk_lem}

fuel-more : (xs : List Ptr) (fuel : ℕ) → length xs < fuel → (k : ℕ) × (fuel ≡ more xs (suc k))
fuel-more [] zero l = absurd (omega arith)
fuel-more [] (suc fuel) l = (fuel, refl)
fuel-more (x ∷ xs) zero l = absurd (omega arith)
fuel-more (x ∷ xs) (suc fuel) l = let (k, e) = fuel-more xs fuel (omega arith) in (k, ap suc e)

next-head : (s : Links) (h : Ptr) (xs : List Ptr) → IsQueue s h xs → s.next h ≡ head_or h xs
next-head s h [] q = q.ring.0.0
next-head s h (x ∷ xs) q = q.ring.0.0

module _ (answers : Ptr → Answer) (bytes : Bytes) (head : Ptr) (w : Worker)
    (some_bytes : 0 < length bytes) where
  -- The state behind a walk that ended.
  pub record Delivered (fuel : ℕ) (xs : List Ptr) : Type 0 where
    pub behind : Worker
    pub goes : deliver fuel answers bytes head (w.links.next head) w ≡ done behind
    pub queue : IsQueue (behind.links) head (kept (takes_all answers bytes) xs)
    pub table : behind.table ≡ w.table
    pub same : (p : Ptr) → IsAs behind w p
    pub wire :
        (p : Ptr) → (behind.client p).c.wire ≡ (w.client p).c.wire ++ received answers bytes xs p

  pub deliver-Delivered :
      (fuel : ℕ) (xs : List Ptr)
      → IsQueue (w.links) head xs
      → AllReady w xs
      → AllSurvive answers bytes xs
      → length xs < fuel
      → Delivered fuel xs
  unfolding deliver
  deliver-Delivered fuel xs q h k l =
      let (n, e) = fuel-more xs fuel l in
      let all = append-nil xs in
      let r = walk_lem answers bytes head some_bytes (suc n) w [] xs [] (rw all q) (rw all h) k in
      record {
        behind = r.behind;
        goes =
            ap (λ f. deliver f answers bytes head (w.links.next head) w) e
            ∙ ap (λ p. deliver (more xs (suc n)) answers bytes head p w)
                (next-head (w.links) head xs q ∙ ap (head_or head) (sym all))
            ∙ r.goes
            ∙ if_true _ ((==_iff head head).1 refl);
        queue = rw (sym (append-nil (kept (takes_all answers bytes) xs))) (r.queue);
        table = r.table;
        same = r.same;
        wire = r.wire;
      }

  -- A message that is not empty goes around a channel whose clients are there, are not late, and stay open: the walk
  -- ends, given fuel for the clients. Every client was sent the part of the message that the system
  -- took for it, once, and no other was sent anything; in the queue, in their order, are those that
  -- took all of it.
  pub deliver_lem :
      (fuel : ℕ) (xs : List Ptr)
      → IsQueue (w.links) head xs
      → AllReady w xs
      → AllSurvive answers bytes xs
      → length xs < fuel
      → (w' : Worker) × (deliver fuel answers bytes head (w.links.next head) w ≡ done w')
        × IsQueue (w'.links) head (kept (takes_all answers bytes) xs)
        × ((p : Ptr) → (w'.client p).c.wire ≡ (w.client p).c.wire ++ received answers bytes xs p)
  deliver_lem fuel xs q h k l =
      let d = deliver-Delivered fuel xs q h k l in (d.behind, d.goes, d.queue, d.wire)

  -- In a channel whose clients are there and not late, where the message closes the connection of one
  -- client, behind others that stay open: given fuel for these, the walk reads on in that client's
  -- freed memory.
  pub deliver-freed :
      (fuel : ℕ) (xs : List Ptr) (x : Ptr) (ys : List Ptr)
      → IsQueue (w.links) head (xs ++ x ∷ ys)
      → AllReady w (xs ++ x ∷ ys)
      → AllSurvive answers bytes xs
      → fate (answers x) bytes ≡ lost
      → length xs < fuel
      → (w' : Worker) × (deliver fuel answers bytes head (w.links.next head) w ≡ freed x w')
  unfolding deliver
  deliver-freed fuel xs x ys q h k f l =
      let (n, e) = fuel-more xs fuel l in
      let r = walk_lem answers bytes head some_bytes (suc n) w [] xs (x ∷ ys) q h k in
      let w1 = message_handler (answers x) bytes x (r.behind) in
      let effect : Effect lost (take (moved ((answers x).last)) bytes) x (r.behind) w1 =
        rw (sym f)
          (message_handler-Effect (answers x) bytes x (r.behind) some_bytes (r.ready.0.1)) in
      let (_, _, c) =
        neighbours (r.behind.links) head (kept (takes_all answers bytes) xs) x ys (r.queue) in
      (
        w1,
        ap (λ f. deliver f answers bytes head (w.links.next head) w) e
            ∙ ap (λ p. deliver (more xs (suc n)) answers bytes head p w)
                (next-head (w.links) head (xs ++ x ∷ ys) q)
            ∙ r.goes
            ∙ if_false _ (==_ne x head c)
            ∙ if_false _ (effect.alive),
      )
