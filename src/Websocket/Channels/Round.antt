-- ===== src/Websocket/Channels/Round.antt =====
-- What one message does to one client.
use mathlib.Core.Bool.{true≢false}
use nginx_comment.Common.{
  ℕ, zero, suc, ◌<◌, ◌≡◌, ◌≢◌, refl, sym, ap, ◌∙◌, Bool, true, false, ◌==◌, ==_iff, ==_ne, ltb,
  ◌++◌, if◌then◌else◌, if_true, if_false, arith, length, take, Bytes, Ptr,
}
use nginx_comment.Connection.{Sys, taken, unavailable, broken, Answer, wanting, close_connection}
use nginx_comment.Connection.Send.{result_of, moved, send_lem}
use nginx_comment.Queue.{remove}
use nginx_comment.Websocket.Channels.{
  Client, Worker, set_client, set_connection, close_client, leave_queue, after_message,
  message_handler,
}

-- A client took the whole message; or a part of it and waits; or is closed.
pub data Fate : Type 0 where
  whole short lost : Fate

abbrev pub fate_of : Bool → Sys → ℕ → Fate
fate_of rearmed (taken zero) size = lost
fate_of rearmed (taken (suc n)) size =
    if ltb (suc n) size then (if rearmed then short else lost) else whole
fate_of rearmed unavailable size = if rearmed then short else lost
fate_of rearmed broken size = lost

abbrev pub fate : Answer → Bytes → Fate
fate a bytes = fate_of (a.rearmed) (a.last) (length bytes)

abbrev pub survives : Fate → Bool
survives whole = true
survives short = true
survives lost = false

-- What a message does to the client `p`: `got` is what it is sent.
pub record Effect (f : Fate) (got : Bytes) (p : Ptr) (w w' : Worker) : Type 0 where
  pub links :
      survives f ≡ true
      → w'.links ≡ elim f [ whole ↦ w.links | short ↦ remove p (w.links) | lost ↦ w.links ]
  pub alive :
      (w'.client p).alive
      ≡ elim f [ whole ↦ (w.client p).alive | short ↦ (w.client p).alive | lost ↦ false ]
  pub wire : (w'.client p).c.wire ≡ (w.client p).c.wire ++ got
  pub timely : (w'.client p).c.wev_timedout ≡ (w.client p).c.wev_timedout
  pub others : (q : Ptr) → q ≢ p → w'.client q ≡ w.client q
  pub table : w'.table ≡ w.table

self : (p : ℕ) → (p == p) ≡ true
self p = (==_iff p p).1 refl

found : (p : Ptr) (k : Client) (w : Worker) → (set_client p k w).client p ≡ k
found p k w = if_true _ (self p)

spared : (p q : Ptr) (k : Client) (w : Worker) → q ≢ p → (set_client p k w).client q ≡ w.client q
spared p q k w n = if_false _ (==_ne q p n)

module _ (p : Ptr) (got : Bytes) (w w1 : Worker) (links : w1.links ≡ w.links)
    (alive : (w1.client p).alive ≡ (w.client p).alive)
    (wire : (w1.client p).c.wire ≡ (w.client p).c.wire ++ got)
    (timely : (w1.client p).c.wev_timedout ≡ (w.client p).c.wev_timedout)
    (others : (q : Ptr) → q ≢ p → w1.client q ≡ w.client q) (table : w1.table ≡ w.table) where
  closing : Effect lost got p w (close_client p w1)
  unfolding close_client close_connection
  closing =
      let k = record (w1.client p) { c = close_connection ((w1.client p).c); alive = false } in
      let links' = if (w1.client p).in_queue then remove p (w1.links) else w1.links in
      let v = record w1 { links = links' } in
      record {
        links = λ e. absurd (true≢false (sym e));
        alive = ap (λ k. k.alive) (found p k v);
        wire = ap (λ k. k.c.wire) (found p k v) ∙ wire;
        timely = ap (λ k. k.c.wev_timedout) (found p k v) ∙ timely;
        others = λ q n. spared p q k v n ∙ others q n;
        table = table;
      }

  leaving : Effect short got p w (leave_queue p w1)
  leaving =
      let k = record (w1.client p) { in_queue = false } in
      let v = record w1 { links = remove p (w1.links) } in
      record {
        links = λ e. ap (remove p) links;
        alive = ap (λ k. k.alive) (found p k v) ∙ alive;
        wire = ap (λ k. k.c.wire) (found p k v) ∙ wire;
        timely = ap (λ k. k.c.wev_timedout) (found p k v) ∙ timely;
        others = λ q n. spared p q k v n ∙ others q n;
        table = table;
      }

  staying : Effect whole got p w w1
  staying = record {
    links = λ e. links;
    alive = alive;
    wire = wire;
    timely = timely;
    others = others;
    table = table;
  }

  rearming :
      (rearmed : Bool)
      → Effect
          (if rearmed then short else lost)
          got
          p
          w
          (if rearmed then leave_queue p w1 else close_client p w1)
  rearming true = leaving
  rearming false = closing

  cutting :
      (cut rearmed : Bool)
      → Effect
          (if cut then (if rearmed then short else lost) else whole)
          got
          p
          w
          (if cut then (if rearmed then leave_queue p w1 else close_client p w1) else w1)
  cutting true rearmed = rearming rearmed
  cutting false rearmed = staying

-- What the handler does about a result of `c->send`, from the state behind it.
after_message-Effect :
    (rearmed : Bool) (last : Sys) (size : ℕ) (p : Ptr) (got : Bytes) (w w1 : Worker)
    → w1.links ≡ w.links
    → (w1.client p).alive ≡ (w.client p).alive
    → (w1.client p).c.wire ≡ (w.client p).c.wire ++ got
    → (w1.client p).c.wev_timedout ≡ (w.client p).c.wev_timedout
    → ((q : Ptr) → q ≢ p → w1.client q ≡ w.client q)
    → w1.table ≡ w.table
    → Effect (fate_of rearmed last size) got p w (after_message rearmed size p (result_of last) w1)
unfolding after_message
after_message-Effect rearmed (taken zero) size p got w w1 a b c t d e =
    closing p got w w1 a b c t d e
after_message-Effect rearmed (taken (suc n)) size p got w w1 a b c t d e =
    cutting p got w w1 a b c t d e (ltb (suc n) size) rearmed
after_message-Effect rearmed unavailable size p got w w1 a b c t d e =
    let k = record (w1.client p) { c = wanting ((w1.client p).c) } in
    let w2 = set_client p k w1 in
    rearming p got w w2 a (ap (λ k. k.alive) (found p k w1) ∙ b)
      (ap (λ k. k.c.wire) (found p k w1) ∙ c) (ap (λ k. k.c.wev_timedout) (found p k w1) ∙ t)
      (λ q n. spared p q k w1 n ∙ d q n) e rearmed
after_message-Effect rearmed broken size p got w w1 a b c t d e = closing p got w w1 a b c t d e

-- One message, sent to a client that was not late with what it was sent before.
pub message_handler-Effect :
    (a : Answer) (bytes : Bytes) (p : Ptr) (w : Worker)
    → 0 < length bytes
    → (w.client p).c.wev_timedout ≡ false
    → Effect (fate a bytes) (take (moved (a.last)) bytes) p w (message_handler a bytes p w)
unfolding message_handler
message_handler-Effect a bytes p w l t =
    let (d, e, s, _, _, u, _) = send_lem (a.interruptions) (a.last) bytes ((w.client p).c) in
    let k = record (w.client p) { c = d } in
    let w1 = set_client p k w in
    let got = take (moved (a.last)) bytes in
    let after =
      after_message-Effect (a.rearmed) (a.last) (length bytes) p got w w1 refl
        (ap (λ k. k.alive) (found p k w)) (ap (λ k. k.c.wire) (found p k w) ∙ s)
        (ap (λ k. k.c.wev_timedout) (found p k w) ∙ u) (λ q n. spared p q k w n) refl in
    let here : message_handler a bytes p w
        ≡ after_message (a.rearmed) (length bytes) p (result_of (a.last)) w1 =
      if_false _ t
      ∙ if_false _ (==_ne (length bytes) 0 (omega arith))
      ∙ ap (λ r. after_message (a.rearmed) (length bytes) p (r.0) (set_connection p (r.1) w)) e in
    rw here after
