-- ===== src/Connection/Table/Drain.antt =====
-- `ngx_get_connection`, and what it does where no connection is free.
use mathlib.Core.Path.{subst}
use Prim.Native.Nat.{min, max}
use nginx_comment.Common.{
  ℕ, zero, suc, ◌-◌, ◌/◌, ◌≤◌, ◌≡◌, ◌≢◌, ◌∙◌, refl, sym, ap, Bool, false, if_true, if◌then◌else◌,
  Option, none, some, not, List, [], ◌∷◌, Option-cases, true, inl, inr, length, arith,
}
use nginx_comment.Connection.Table.{
  ReadHandler, wait_request_handler, empty_handler, wait_frame_handler, other_handler, handle_by,
  read_event, set_read_handler, close_accepted_connection, Slot, Table, mark_close,
  reusable_connection, close_connection, take_free, last_of, drain_loop, drain_connections, drained,
  get_connection,
}
use nginx_comment.Connection.Table.Free.{
  NotIn, IsFree, put-Changed, reusable-Changed, put_self, Changed-IsFree,
}
use nginx_comment.Connection.Table.Steps.{
  close-IsFree, accepted-IsFree, take-Changed, take-IsFree, closed_before,
}

-- The last connection of the reusable ones is open and waits for a request.
pub record HasReusable (t : Table) : Type 0 where
  pub last_one : ℕ
  pub fd : ℕ
  pub is_last : last_of t.queue ≡ some last_one
  pub is_open : (t.slot last_one).fd ≡ some fd
  pub waits : (t.slot last_one).read_handler ≡ wait_request_handler

-- A free connection of `t` is taken for the socket `s`, and the others stay what they are.
pub record Served (s : ℕ) (t : Table) (r : Option ℕ × Table) : Type 0 where
  pub number : ℕ
  pub given : r.0 ≡ some number
  pub was_free : (t.slot number).fd ≡ none
  pub socket : (r.1.slot number).fd ≡ some s
  pub turned : (r.1.slot number).rev_instance ≡ not (t.slot number).rev_instance
  pub others : (d : ℕ) → d ≢ number → r.1.slot d ≡ t.slot d
  pub left : List ℕ
  pub left-IsFree : IsFree left r.1
  pub apart : NotIn number left

-- At least `n` connections are free.
pub record HasFree (n : ℕ) (t : Table) : Type 0 where
  pub ones : List ℕ
  pub are : IsFree ones t
  pub enough : n ≤ length ones

-- A handler takes none of the free connections.
abbrev pub KeepsFree : (ℕ → Table → Table) → Type 0
KeepsFree handler = (n c : ℕ) (t : Table) → HasFree n t → HasFree n (handler c t)

close_connection-frees :
    (n c fd : ℕ) (t : Table)
    → (t.slot c).fd ≡ some fd
    → HasFree n t
    → HasFree (suc n) (close_connection c t)
close_connection-frees n c fd t e h = record {
  ones = c ∷ h.ones;
  are = close-IsFree c fd t e h.ones h.are;
  enough = more n h.enough;
}
  where
    more : {k : ℕ} (n : ℕ) → n ≤ k → suc n ≤ suc k
    more n h = omega arith

pub accepted-HasFree :
    (n c fd : ℕ) (t : Table)
    → (t.slot c).fd ≡ some fd
    → HasFree n t
    → HasFree n (close_accepted_connection c t)
accepted-HasFree n c fd t e h = record {
  ones = c ∷ h.ones;
  are = accepted-IsFree c fd t e h.ones h.are;
  enough = more n h.enough;
}
  where
    more : {k : ℕ} (n : ℕ) → n ≤ k → n ≤ suc k
    more n h = omega arith

fewer-HasFree : (n : ℕ) (t : Table) → HasFree (suc n) t → HasFree n t
fewer-HasFree n t h = record { ones = h.ones; are = h.are; enough = less n h.enough }
  where
    less : {k : ℕ} (n : ℕ) → suc n ≤ k → n ≤ k
    less n h = omega arith

pub close_connection-KeepsFree : KeepsFree close_connection
close_connection-KeepsFree n c t h = elim (Option-cases (t.slot c).fd) [
  | inl e ↦ subst (HasFree n) (sym (closed_before c t e)) h
  | inr (fd, e) ↦ fewer-HasFree n (close_connection c t) (close_connection-frees n c fd t e h)
]

pub reusable_connection-HasFree :
    (n c : ℕ) (b : Bool) (t : Table) → HasFree n t → HasFree n (reusable_connection c b t)
unfolding reusable_connection
reusable_connection-HasFree n c b t h = record {
  ones = h.ones;
  are =
      Changed-IsFree c t (reusable_connection c b t) h.ones (reusable-Changed c t b) same_free
        same_free_n h.are;
  enough = h.enough;
}
  where
    same_free : (reusable_connection c b t).free ≡ t.free
    same_free = refl

    same_free_n : (reusable_connection c b t).free_n ≡ t.free_n
    same_free_n = refl

pub mark_close-HasFree : (n c : ℕ) (t : Table) → HasFree n t → HasFree n (mark_close c t)
mark_close-HasFree n c t h = record {
  ones = h.ones;
  are =
      Changed-IsFree c t (mark_close c t) h.ones
        (put-Changed c t (mark_close c t) (record (t.slot c) { close = true }) refl) refl refl
        h.are;
  enough = h.enough;
}

pub set_read_handler-HasFree :
    (n : ℕ) (handler : ReadHandler) (c : ℕ) (t : Table)
    → HasFree n t
    → HasFree n (set_read_handler handler c t)
set_read_handler-HasFree n handler c t h = record {
  ones = h.ones;
  are =
      Changed-IsFree c t (set_read_handler handler c t) h.ones
        (put-Changed c t (set_read_handler handler c t)
          (record (t.slot c) { read_handler = handler }) refl)
        refl refl h.are;
  enough = h.enough;
}

module _ (others : ℕ → Table → Table) (keeps : KeepsFree others) where
  handle_by-KeepsFree : (h : ReadHandler) → KeepsFree (handle_by others h)
  handle_by-KeepsFree empty_handler n c t f = f
  handle_by-KeepsFree wait_frame_handler n c t f = f
  handle_by-KeepsFree other_handler n c t f = keeps n c t f
  handle_by-KeepsFree wait_request_handler n c t f =
      if_HasFree (t.slot c).close (close_connection-KeepsFree n c t f) (keeps n c t f)
    where
      if_HasFree :
          {t u : Table} (b : Bool) → HasFree n t → HasFree n u → HasFree n (if b then t else u)
      if_HasFree true f g = f
      if_HasFree false f g = g

  drain_loop-KeepsFree : (n : ℕ) → KeepsFree (λ _. drain_loop others n)
  unfolding drain_loop
  drain_loop-KeepsFree zero k q t h = h
  drain_loop-KeepsFree (suc n) k q t h =
      elim (last_of t.queue)
        as (λ o. HasFree k (elim o [
          | none ↦ t
          | some c ↦ drain_loop others n (read_event others c (mark_close c t))
        ])) [
          | none ↦ h
          | some c ↦
              let marked = mark_close c t in
              drain_loop-KeepsFree n k q (read_event others c marked) (
                handle_by-KeepsFree (marked.slot c).read_handler k c marked
                  (mark_close-HasFree k c t h))
        ]

  -- A marked connection that waits for a request is closed.
  read_event-frees :
      (k q fd : ℕ) (t : Table)
      → (t.slot q).fd ≡ some fd
      → (t.slot q).read_handler ≡ wait_request_handler
      → HasFree k t
      → HasFree (suc k) (read_event others q (mark_close q t))
  read_event-frees k q fd t is_open waits h =
      let marked = mark_close q t in
      let self = put_self q (record (t.slot q) { close = true }) t.slot in
      let handler : (marked.slot q).read_handler ≡ wait_request_handler =
        ap (λ (x : Slot). x.read_handler) self ∙ waits in
      let close : (marked.slot q).close ≡ true = ap (λ (x : Slot). x.close) self in
      subst (HasFree (suc k))
        (sym (ap (λ x. handle_by others x q marked) handler ∙ if_true _ close))
        (close_connection-frees k q fd marked (ap (λ (x : Slot). x.fd) self ∙ is_open)
          (mark_close-HasFree k q t h))

  drain_loop-frees :
      (n : ℕ) (t : Table) (k : ℕ)
      → HasReusable t
      → HasFree k t
      → HasFree (suc k) (drain_loop others (suc n) t)
  unfolding drain_loop
  drain_loop-frees n t k r h =
      let q = r.last_one in
      let first : drain_loop others (suc n) t
          ≡ drain_loop others n (read_event others q (mark_close q t)) =
        ap
          (λ o. elim o [
            | none ↦ t
            | some c ↦ drain_loop others n (read_event others c (mark_close c t))
          ])
          r.is_last in
      subst (HasFree (suc k)) (sym first) (
        drain_loop-KeepsFree n (suc k) q (read_event others q (mark_close q t))
          (read_event-frees k q r.fd t r.is_open r.waits h))

  drain_connections-frees :
      (t : Table) (k : ℕ)
      → HasReusable t
      → HasFree k t
      → HasFree (suc k) (drain_connections others t)
  unfolding drain_connections
  drain_connections-frees t k r h =
      subst (λ n. HasFree (suc k) (drain_loop others n t))
        (sym (positive (max (min 32 (t.reusable_n / 8)) 1) (omega arith)))
        (drain_loop-frees (max (min 32 (t.reusable_n / 8)) 1 - 1) t k r h)
    where
      positive : (n : ℕ) → 1 ≤ n → n ≡ suc (n - 1)
      positive n h = omega arith

take_free-Served : (s : ℕ) (t : Table) → HasFree 1 t → Served s t (take_free s t.free t)
take_free-Served s t h = go h.ones h.are h.enough
  where
    go : (cs : List ℕ) → IsFree cs t → 1 ≤ length cs → Served s t (take_free s t.free t)
    go [] k e = absurd (omega arith)
    go (c ∷ cs) k e =
        let ch = take-Changed c s t in
        subst (λ o. Served s t (take_free s o t)) (sym k.chain.0)
          (record {
            number = c;
            given = refl;
            was_free = k.chain.1;
            socket = ch.descriptor;
            turned = ch.rev;
            others = ch.others;
            left = cs;
            left-IsFree = take-IsFree c s t cs k;
            apart = k.distinct.0;
          })

-- A table with a free connection has one in its list.
some_free : (t : Table) (c : ℕ) → t.free ≡ some c → HasFree 0 t → HasFree 1 t
some_free t c e h = go h.ones h.are
  where
    go : (cs : List ℕ) → IsFree cs t → HasFree 1 t
    go [] k = let same : none ≡ some c = sym k.chain ∙ e in absurd cc
    go (d ∷ cs) k = record { ones = d ∷ cs; are = k; enough = omega arith }

module _ (others : ℕ → Table → Table) (keeps : KeepsFree others) where
  drained-HasFree :
      (t : Table)
      → HasFree 0 t
      → (t.free ≡ none → HasReusable t)
      → HasFree 1 (drained others t.free t)
  drained-HasFree t h full = elim (Option-cases t.free) [
    | inl e ↦
        subst (λ o. HasFree 1 (drained others o t)) (sym e)
          (drain_connections-frees others keeps t 0 (full e) h)
    | inr (c, e) ↦ subst (λ o. HasFree 1 (drained others o t)) (sym e) (some_free t c e h)
  ]

  -- The list of free connections is sound, and if it is empty, the last connection in the queue of the
  -- reusable ones is open and waits for a request; where draining calls a handler other than
  -- `ngx_http_wait_request_handler`, `ngx_http_empty_handler` and `ngx_websocket_wait_frame_handler`, that
  -- one leaves the list sound with as many free connections or more. Then `ngx_get_connection` returns a
  -- connection. It had no descriptor, has the socket's now and an instance turned over, and is free no
  -- longer; the rest of the list is sound, and no other connection is changed but by the draining.
  pub get_connection-Served :
      (s : ℕ) (t : Table)
      → HasFree 0 t
      → (t.free ≡ none → HasReusable t)
      → Served s (drained others t.free t) (get_connection others s t)
  unfolding get_connection
  get_connection-Served s t h full =
      take_free-Served s (drained others t.free t) (drained-HasFree t h full)
