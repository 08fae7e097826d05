-- ===== src/Connection/Table/Sound.antt =====
-- The list of free connections of a new table, and of the tables that come from it.
use mathlib.Core.Path.{subst}
use nginx_comment.Common.{
  ℕ, zero, suc, ◌+◌, ◌%◌, ◌^◌, ◌≤◌, ◌<◌, ◌≡◌, ◌∙◌, refl, sym, ap, Option, none, some, List, [], ◌∷◌,
  length, arith,
}
use nginx_comment.Connection.Table.{
  Slot, Table, put_slot, unused, link_slots, new_table, take_connection,
}
use nginx_comment.Connection.Table.Free.{
  Chain, NotIn, Distinct, IsFree, put_self, put_other, Chain-changed,
}
use nginx_comment.Connection.Table.Steps.{take-IsFree}
use nginx_comment.Connection.Table.Drain.{
  HasFree, accepted-HasFree, close_connection-KeepsFree, mark_close-HasFree,
  set_read_handler-HasFree, reusable_connection-HasFree,
}
use nginx_comment.Connection.Table.Stale.{
  Uses, same, taken, other_taken, shut, rejected, kept, handled, marked,
}

-- The connections from `i` on, `n` of them.
abbrev pub up_from : ℕ → ℕ → List ℕ
up_from i zero = []
up_from i (suc n) = i ∷ up_from (suc i) n

length-up_from : (i n : ℕ) → length (up_from i n) ≡ n
length-up_from i zero = refl
length-up_from i (suc n) = ap suc (length-up_from (suc i) n)

below-NotIn : (c i n : ℕ) → c < i → NotIn c (up_from i n)
below-NotIn c i zero h = tt
below-NotIn c i (suc n) h = (omega arith, below-NotIn c (suc i) n (omega arith))

up_from-Distinct : (i n : ℕ) → Distinct (up_from i n)
up_from-Distinct i zero = tt
up_from-Distinct i (suc n) = (below-NotIn i (suc i) n (omega arith), up_from-Distinct (suc i) n)

zero_plus : (n : ℕ) → n ≡ zero + n
zero_plus n = omega arith

shift : (i n : ℕ) → i + suc n ≡ suc i + n
shift i n = omega arith

-- The loop links the connections below `i` before those that it has linked.
link_slots-Chain :
    (i n : ℕ) (next : Option ℕ) (slot : ℕ → Slot)
    → Chain slot next (up_from i n)
    → Chain (link_slots i next slot).1 (link_slots i next slot).0 (up_from zero (i + n))
unfolding link_slots
link_slots-Chain zero n next slot h = subst (λ k. Chain slot next (up_from zero k)) (zero_plus n) h
link_slots-Chain (suc i) n next slot h =
    let slot' = put_slot i (unused next) slot in
    let self = put_self i (unused next) slot in
    subst
      (λ k. Chain (link_slots i (some i) slot').1 (link_slots i (some i) slot').0 (up_from zero k))
      (shift i n)
      (link_slots-Chain i (suc n) (some i) slot' (
        refl,
        ap (λ (x : Slot). x.fd) self,
        subst (λ o. Chain slot' o (up_from (suc i) n)) (sym (ap (λ (x : Slot). x.link) self))
            (Chain-changed slot slot' i next (up_from (suc i) n)
              (λ d k. put_other i d (unused next) slot k) (below-NotIn i (suc i) n (omega arith))
              h),
      ))

new_table-HasFree : (n : ℕ) → n < 2 ^ 64 → HasFree n (new_table n)
unfolding new_table
new_table-HasFree n room = record {
  ones = up_from zero n;
  are = record {
    chain =
        subst
          (λ k.
            Chain (link_slots n none (λ _. unused none)).1 (link_slots n none (λ _. unused none)).0
              (up_from zero k))
          (plus_zero n) (link_slots-Chain n zero none (λ _. unused none) refl);
    distinct = up_from-Distinct zero n;
    counted = small n room ∙ ap (λ k. k % 2 ^ 64) (sym (length-up_from zero n));
  };
  enough = subst (λ k. n ≤ k) (sym (length-up_from zero n)) (omega arith);
}
  where
    plus_zero : (n : ℕ) → n + zero ≡ n
    plus_zero n = omega arith

    small : (n : ℕ) → n < 2 ^ 64 → n ≡ n % 2 ^ 64
    small n h = omega arith

take-HasFree :
    (c s : ℕ) (t : Table) → t.free ≡ some c → HasFree 0 t → HasFree 0 (take_connection s c t)
take-HasFree c s t e h = go h.ones h.are
  where
    go : (cs : List ℕ) → IsFree cs t → HasFree 0 (take_connection s c t)
    go [] k = let same : none ≡ some c = sym k.chain ∙ e in absurd cc
    go (d ∷ cs) k =
        let both : some d ≡ some c = sym k.chain.0 ∙ e in
        let same : d ≡ c = cc in
        record {
          ones = cs;
          are = take-IsFree c s t cs (subst (λ d. IsFree (d ∷ cs) t) same k);
          enough = omega arith;
        }

-- A new table with at least one connection and fewer than 2^64 goes through any number of these steps: a
-- connection at the head of the free ones is taken as `ngx_get_connection` does it, `ngx_close_connection`
-- and `ngx_reusable_connection` are called, and `ngx_close_accepted_connection` for an open connection, a
-- handler is set, and a connection is marked as `ngx_drain_connections` does it; `ngx_free_connection` is
-- called by the two that close only. Then
-- the connections of the list of free ones have no descriptor, none of them comes twice, and
-- `free_connection_n` is their number modulo 2^64.
pub Uses-HasFree :
    (c n : ℕ) (least : 1 ≤ n) (room : n < 2 ^ 64) {k : ℕ} {u : Table}
    → Uses c (new_table n) k u
    → HasFree 0 u
Uses-HasFree c n least room same =
    let h = new_table-HasFree n room in record { ones = h.ones; are = h.are; enough = omega arith }
Uses-HasFree c n least room (taken {u = u} s h e) =
    take-HasFree c s u e (Uses-HasFree c n least room h)
Uses-HasFree c n least room (other_taken {u = u} s d h e k) =
    take-HasFree d s u e (Uses-HasFree c n least room h)
Uses-HasFree c n least room (shut {u = u} d h) =
    close_connection-KeepsFree 0 d u (Uses-HasFree c n least room h)
Uses-HasFree c n least room (rejected {u = u} d fd h e) =
    accepted-HasFree 0 d fd u e (Uses-HasFree c n least room h)
Uses-HasFree c n least room (kept {u = u} d b h) =
    reusable_connection-HasFree 0 d b u (Uses-HasFree c n least room h)
Uses-HasFree c n least room (handled {u = u} handler d h) =
    set_read_handler-HasFree 0 handler d u (Uses-HasFree c n least room h)
Uses-HasFree c n least room (marked {u = u} d h) =
    mark_close-HasFree 0 d u (Uses-HasFree c n least room h)
