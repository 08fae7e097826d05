-- ===== src/Connection/Table/Stale.antt =====
-- Events that are older than the connection they name.
use mathlib.Core.Path.{subst}
use nginx_comment.Common.{
  ℕ, zero, suc, ◌≡◌, ◌≢◌, ◌∙◌, refl, sym, ap, Bool, true, false, not, ◌||◌, Option, none, some,
  eq_or_ne, inl, inr, Option-cases,
}
use nginx_comment.Connection.Table.{
  ReadHandler, set_read_handler, close_accepted_connection, Slot, Table, reusable_connection,
  close_connection, take_connection, mark_close, stale, is_none, differs,
}
use nginx_comment.Connection.Table.Free.{Changed, put-Changed, reusable-Changed}
use nginx_comment.Connection.Table.Steps.{
  close-Changed, accepted-Changed, take-Changed, closed_before,
}

-- The table goes from `t` on to another, in which connection `c` was taken the given number of
-- times: a connection that is free next is taken, one is closed, with
-- `ngx_close_connection` or with `ngx_close_accepted_connection`, becomes reusable or not, gets a
-- handler, or is marked by `ngx_drain_connections`.
pub data Uses (c : ℕ) (t : Table) : ℕ → Table → Type 0 where
  same : Uses c t zero t
  taken :
      {n : ℕ} {u : Table} (s : ℕ)
      → Uses c t n u
      → u.free ≡ some c
      → Uses c t (suc n) (take_connection s c u)
  other_taken :
      {n : ℕ} {u : Table} (s d : ℕ)
      → Uses c t n u
      → u.free ≡ some d
      → c ≢ d
      → Uses c t n (take_connection s d u)
  shut : {n : ℕ} {u : Table} (d : ℕ) → Uses c t n u → Uses c t n (close_connection d u)
  rejected :
      {n : ℕ} {u : Table} (d fd : ℕ)
      → Uses c t n u
      → (u.slot d).fd ≡ some fd
      → Uses c t n (close_accepted_connection d u)
  kept :
      {n : ℕ} {u : Table} (d : ℕ) (b : Bool) → Uses c t n u → Uses c t n (reusable_connection d b u)
  handled :
      {n : ℕ} {u : Table} (handler : ReadHandler) (d : ℕ)
      → Uses c t n u
      → Uses c t n (set_read_handler handler d u)
  marked : {n : ℕ} {u : Table} (d : ℕ) → Uses c t n u → Uses c t n (mark_close d u)

abbrev pub is_odd : ℕ → Bool
is_odd zero = false
is_odd (suc n) = not (is_odd n)

abbrev turned : Bool → ℕ → Bool
turned b zero = b
turned b (suc n) = not (turned b n)

bit : ℕ → Table → Bool
bit c t = (t.slot c).rev_instance

-- An operation that turns over no instance leaves that of `c`.
Changed-bit :
    (c d : ℕ) (t t' : Table) (fd link : Option ℕ)
    → Changed d t t' fd link (bit d t)
    → bit c t' ≡ bit c t
unfolding bit
Changed-bit c d t t' fd link ch = elim (eq_or_ne c d) [
  | inl e ↦ subst (λ c. bit c t' ≡ bit c t) (sym e) ch.rev
  | inr n ↦ ap (λ (x : Slot). x.rev_instance) (ch.others c n)
]

close_connection-bit : (c d : ℕ) (t : Table) → bit c (close_connection d t) ≡ bit c t
unfolding bit
close_connection-bit c d t = elim (Option-cases (t.slot d).fd) [
  | inl e ↦ ap (bit c) (closed_before d t e)
  | inr (fd, e) ↦ Changed-bit c d t (close_connection d t) none t.free (close-Changed d fd t e)
]

Uses-bit : (c : ℕ) (t : Table) {n : ℕ} {u : Table} → Uses c t n u → bit c u ≡ turned (bit c t) n
unfolding bit
Uses-bit c t same = refl
Uses-bit c t (taken {n = n} {u = u} s h e) = (take-Changed c s u).rev ∙ ap not (Uses-bit c t h)
Uses-bit c t (other_taken {n = n} {u = u} s d h e k) =
    ap (λ (x : Slot). x.rev_instance) ((take-Changed d s u).others c k) ∙ Uses-bit c t h
Uses-bit c t (shut {n = n} {u = u} d h) = close_connection-bit c d u ∙ Uses-bit c t h
Uses-bit c t (rejected {n = n} {u = u} d fd h e) =
    Changed-bit c d u (close_accepted_connection d u) none u.free (accepted-Changed d fd u e)
    ∙ Uses-bit c t h
Uses-bit c t (kept {n = n} {u = u} d b h) =
    Changed-bit c d u (reusable_connection d b u) (u.slot d).fd (u.slot d).link
      (reusable-Changed d u b)
    ∙ Uses-bit c t h
Uses-bit c t (handled {n = n} {u = u} handler d h) =
    Changed-bit c d u (set_read_handler handler d u) (u.slot d).fd (u.slot d).link (
      put-Changed d u (set_read_handler handler d u) (record (u.slot d) { read_handler = handler })
        refl)
    ∙ Uses-bit c t h
Uses-bit c t (marked {n = n} {u = u} d h) =
    Changed-bit c d u (mark_close d u) (u.slot d).fd (u.slot d).link
      (put-Changed d u (mark_close d u) (record (u.slot d) { close = true }) refl)
    ∙ Uses-bit c t h

differs-not : (a b : Bool) → differs (not a) b ≡ not (differs a b)
differs-not true true = refl
differs-not true false = refl
differs-not false true = refl
differs-not false false = refl

differs-turned : (b : Bool) (n : ℕ) → differs (turned b n) b ≡ is_odd n
differs-turned true zero = refl
differs-turned false zero = refl
differs-turned true (suc n) = differs-not (turned true n) true ∙ ap not (differs-turned true n)
differs-turned false (suc n) = differs-not (turned false n) false ∙ ap not (differs-turned false n)

-- Whatever is done to the connections of a table, an event of connection `c` that was registered with
-- the instance it had at first is taken for a stale one exactly where the connection has no
-- descriptor or was taken an odd number of times since.
pub stale-Uses :
    {n : ℕ} {u : Table} (c : ℕ) (t : Table)
    → Uses c t n u
    → stale c (t.slot c).rev_instance u ≡ is_none (u.slot c).fd || is_odd n
unfolding stale bit
stale-Uses {n = n} {u = u} c t h =
    ap (λ b. is_none (u.slot c).fd || b)
      (ap (λ b. differs b (bit c t)) (Uses-bit c t h) ∙ differs-turned (bit c t) n)
