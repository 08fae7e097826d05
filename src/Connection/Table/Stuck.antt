-- ===== src/Connection/Table/Stuck.antt =====
-- `ngx_drain_connections` where the connection that became reusable first is being answered.
use nginx_comment.Common.{ℕ, zero, suc, ◌/◌, ◌≡◌, ◌∙◌, ap, none, some, true}
use Prim.Native.Nat.{min, max}
use nginx_comment.Connection.Table.{
  Slot, Table, empty_handler, handle_by, read_event, mark_close, take_free, last_of, drain_loop,
  drain_connections, drained, get_connection,
}
use nginx_comment.Connection.Table.Free.{put_self}

-- No connection is free, and the last one of the reusable ones has the empty handler.
record IsStuck (q : ℕ) (t : Table) : Type 0 where
  full : t.free ≡ none
  is_last : last_of t.queue ≡ some q
  empty : (t.slot q).read_handler ≡ empty_handler

module _ (others : ℕ → Table → Table) (q : ℕ) where
  mark_close-IsStuck : (t : Table) → IsStuck q t → IsStuck q (mark_close q t)
  mark_close-IsStuck t h = record {
    full = h.full;
    is_last = h.is_last;
    empty =
        ap (λ (x : Slot). x.read_handler) (put_self q (record (t.slot q) { close = true }) t.slot)
        ∙ h.empty;
  }

  drain_loop-full : (n : ℕ) (t : Table) → IsStuck q t → (drain_loop others n t).free ≡ none
  unfolding drain_loop
  drain_loop-full zero t h = h.full
  drain_loop-full (suc n) t h =
      let marked = mark_close q t in
      let k = mark_close-IsStuck t h in
      ap (λ (u : Table). u.free)
        (ap
          (λ o. elim o [
            | none ↦ t
            | some c ↦ drain_loop others n (read_event others c (mark_close c t))
          ])
          h.is_last)
      ∙ ap (λ x. (drain_loop others n (handle_by others x q marked)).free) k.empty
      ∙ drain_loop-full n marked k

  -- However many other connections could be closed, `ngx_get_connection` returns none where no
  -- connection is free and the one that became reusable first has `ngx_http_empty_handler`, as one has that
  -- is being answered: every round of `ngx_drain_connections` takes that connection again.
  get_connection-stuck : (s : ℕ) (t : Table) → IsStuck q t → (get_connection others s t).0 ≡ none
  unfolding get_connection drain_connections
  get_connection-stuck s t h =
      ap (λ o. (take_free s (drained others o t).free (drained others o t)).0) h.full
      ∙ ap (λ o. (take_free s o (drained others none t)).0)
          (drain_loop-full (max (min 32 (t.reusable_n / 8)) 1) t h)
