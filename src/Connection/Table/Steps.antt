-- ===== src/Connection/Table/Steps.antt =====
-- `ngx_close_connection` and the end of `ngx_get_connection` on the list of free connections.
use mathlib.Core.Path.{subst}
use nginx_comment.Common.{
  ℕ, ◌+◌, ◌-◌, ◌%◌, ◌^◌, ◌≡◌, ◌∙◌, refl, sym, ap, false, not, none, some, List, ◌∷◌, length,
}
use nginx_comment.Connection.Table.{
  Table, reusable_connection, free_connection, without_fd, close_by, close_connection,
  close_accepted_connection, take_connection,
}
use nginx_comment.Connection.Table.Free.{
  Chain, IsFree, Changed, put-Changed, Chain-changed, open-NotIn, reusable-Changed, free-Changed,
  fd-Changed, events, events-Changed, Changed-then, one_more, one_less,
}

-- A connection with a descriptor is put before the free ones, and has none then.
freed-IsFree :
    (c fd : ℕ) (t t' : Table)
    → (t.slot c).fd ≡ some fd
    → Changed c t t' none t.free (t.slot c).rev_instance
    → t'.free ≡ some c
    → t'.free_n ≡ (t.free_n + 1) % 2 ^ 64
    → (cs : List ℕ) → IsFree cs t
    → IsFree (c ∷ cs) t'
freed-IsFree c fd t t' is_open ch f n cs h =
    let out = open-NotIn t.slot c fd t.free cs is_open h.chain in
    let kept = Chain-changed t.slot t'.slot c t.free cs ch.others out h.chain in
    record {
      chain = (f, ch.descriptor, subst (λ o. Chain t'.slot o cs) (sym ch.next) kept);
      distinct = (out, h.distinct);
      counted = n ∙ ap (λ n. (n + 1) % 2 ^ 64) h.counted ∙ one_more (length cs);
    }

module _ (c fd : ℕ) (t : Table) (is_open : (t.slot c).fd ≡ some fd) where
  abbrev t1 : Table
  t1 = events c t

  abbrev t2 : Table
  t2 = reusable_connection c false t1

  abbrev t3 : Table
  t3 = free_connection c t2

  closed_lem : close_connection c t ≡ without_fd c t3
  unfolding close_connection events
  closed_lem = ap (λ o. close_by c o t) is_open

  -- What the list of free connections is after the other steps.
  free_kept : t2.free ≡ t.free
  unfolding reusable_connection events
  free_kept = refl

  close_steps : Changed c t (without_fd c t3) none t.free (t.slot c).rev_instance
  close_steps =
      let e1 = events-Changed c t in
      let e2 = reusable-Changed c t1 false in
      let e3 = free-Changed c t2 in
      let e4 = fd-Changed c t3 in
      let all =
        Changed-then c t t3 (without_fd c t3)
          (Changed-then c t t2 t3 (Changed-then c t t1 t2 e1 e2) e3) e4 in
      record {
        descriptor = all.descriptor;
        next = all.next ∙ e3.next ∙ free_kept;
        rev = all.rev ∙ e3.rev ∙ e2.rev ∙ e1.rev;
        others = all.others;
      }

  pub close-Changed : Changed c t (close_connection c t) none t.free (t.slot c).rev_instance
  close-Changed =
      subst (λ u. Changed c t u none t.free (t.slot c).rev_instance) (sym closed_lem) close_steps

  steps_free : (without_fd c t3).free ≡ some c
  unfolding free_connection
  steps_free = refl

  steps_free_n : (without_fd c t3).free_n ≡ (t.free_n + 1) % 2 ^ 64
  unfolding free_connection reusable_connection events
  steps_free_n = refl

  close_free : (close_connection c t).free ≡ some c
  close_free = ap (λ (u : Table). u.free) closed_lem ∙ steps_free

  close_free_n : (close_connection c t).free_n ≡ (t.free_n + 1) % 2 ^ 64
  close_free_n = ap (λ (u : Table). u.free_n) closed_lem ∙ steps_free_n

  -- What is closed is free.
  pub close-IsFree : (cs : List ℕ) → IsFree cs t → IsFree (c ∷ cs) (close_connection c t)
  close-IsFree =
      freed-IsFree c fd t (close_connection c t) is_open close-Changed close_free close_free_n

  pub accepted-Changed :
      Changed c t (close_accepted_connection c t) none t.free (t.slot c).rev_instance
  accepted-Changed =
      let e1 = free-Changed c t in
      let e2 = fd-Changed c (free_connection c t) in
      let all = Changed-then c t (free_connection c t) (close_accepted_connection c t) e1 e2 in
      record {
        descriptor = all.descriptor;
        next = all.next ∙ e1.next;
        rev = all.rev ∙ e1.rev;
        others = all.others;
      }

  accepted_free : (close_accepted_connection c t).free ≡ some c
  unfolding free_connection
  accepted_free = refl

  accepted_free_n : (close_accepted_connection c t).free_n ≡ (t.free_n + 1) % 2 ^ 64
  unfolding free_connection
  accepted_free_n = refl

  pub accepted-IsFree :
      (cs : List ℕ) → IsFree cs t → IsFree (c ∷ cs) (close_accepted_connection c t)
  accepted-IsFree =
      freed-IsFree c fd t (close_accepted_connection c t) is_open accepted-Changed accepted_free
        accepted_free_n

-- A free connection is taken.
module _ (c s : ℕ) (t : Table) where
  pub take-Changed : Changed c t (take_connection s c t) (some s) none (not (t.slot c).rev_instance)
  unfolding take_connection
  take-Changed = put-Changed c t (take_connection s c t) _ refl

  take_free_lem : (take_connection s c t).free ≡ (t.slot c).link
  unfolding take_connection
  take_free_lem = refl

  take_free_n : (take_connection s c t).free_n ≡ (t.free_n + 2 ^ 64 - 1) % 2 ^ 64
  unfolding take_connection
  take_free_n = refl

  pub take-IsFree : (cs : List ℕ) → IsFree (c ∷ cs) t → IsFree cs (take_connection s c t)
  take-IsFree cs h =
      let t' = take_connection s c t in
      record {
        chain =
            subst (λ o. Chain t'.slot o cs) (sym take_free_lem)
              (Chain-changed t.slot t'.slot c (t.slot c).link cs take-Changed.others h.distinct.0
                h.chain.2);
        distinct = h.distinct.1;
        counted =
            take_free_n ∙ ap (λ n. (n + 2 ^ 64 - 1) % 2 ^ 64) h.counted ∙ one_less (length cs);
      }

pub closed_before : (c : ℕ) (t : Table) → (t.slot c).fd ≡ none → close_connection c t ≡ t
unfolding close_connection
closed_before c t e = ap (λ o. close_by c o t) e
