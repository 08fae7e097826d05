-- ===== src/Connection/Table/Free.antt =====
-- The list of free connections: what the operations on a connection do to it.
use mathlib.Core.Path.{subst}
use nginx_comment.Common.{
  ℕ, suc, ◌+◌, ◌-◌, ◌%◌, ◌^◌, ◌≡◌, ◌≢◌, ◌∙◌, refl, sym, ap, Bool, Option, none, some, List, [], ◌∷◌,
  ==_iff, ==_ne, eq_or_ne, if_true, if_false, inl, inr, length, arith,
}
use nginx_comment.Connection.Table.{
  Slot, Table, put_slot, reusable_connection, free_connection, without_events, without_fd,
}

-- The chain from `free_connections` on, each of which has no descriptor, and none comes twice.
abbrev pub Chain : (ℕ → Slot) → Option ℕ → List ℕ → Type 0
Chain slot o [] = o ≡ none
Chain slot o (c ∷ cs) = (o ≡ some c) × ((slot c).fd ≡ none) × Chain slot (slot c).link cs

abbrev pub NotIn : ℕ → List ℕ → Type 0
NotIn c [] = Unit
NotIn c (d ∷ ds) = (c ≢ d) × NotIn c ds

abbrev pub Distinct : List ℕ → Type 0
Distinct [] = Unit
Distinct (c ∷ cs) = NotIn c cs × Distinct cs

-- The free connections of a table are `cs`.
pub record IsFree (cs : List ℕ) (t : Table) : Type 0 where
  pub chain : Chain t.slot t.free cs
  pub distinct : Distinct cs
  pub counted : t.free_n ≡ length cs % 2 ^ 64

pub one_more : (n : ℕ) → (n % 2 ^ 64 + 1) % 2 ^ 64 ≡ suc n % 2 ^ 64
one_more n = omega arith

pub one_less : (n : ℕ) → (suc n % 2 ^ 64 + 2 ^ 64 - 1) % 2 ^ 64 ≡ n % 2 ^ 64
one_less n = omega arith

pub put_self : (c : ℕ) (s : Slot) (slot : ℕ → Slot) → put_slot c s slot c ≡ s
put_self c s slot = if_true _ ((==_iff c c).1 refl)

pub put_other : (c d : ℕ) (s : Slot) (slot : ℕ → Slot) → d ≢ c → put_slot c s slot d ≡ slot d
put_other c d s slot n = if_false _ (==_ne d c n)

-- A change of a connection that is not in the chain spares it.
pub Chain-changed :
    (slot slot' : ℕ → Slot) (c : ℕ) (o : Option ℕ) (cs : List ℕ)
    → ((d : ℕ) → d ≢ c → slot' d ≡ slot d)
    → NotIn c cs
    → Chain slot o cs
    → Chain slot' o cs
Chain-changed slot slot' c o [] same n h = h
Chain-changed slot slot' c o (d ∷ cs) same n h =
    let e : slot' d ≡ slot d = same d (λ k. n.0 (sym k)) in
    (
      h.0,
      ap (λ (x : Slot). x.fd) e ∙ h.1,
      subst (λ (x : Slot). Chain slot' x.link cs) (sym e)
          (Chain-changed slot slot' c (slot d).link cs same n.1 h.2),
    )

-- A connection with a descriptor is not free.
pub open-NotIn :
    (slot : ℕ → Slot) (c fd : ℕ) (o : Option ℕ) (cs : List ℕ)
    → (slot c).fd ≡ some fd
    → Chain slot o cs
    → NotIn c cs
open-NotIn slot c fd o [] e h = tt
open-NotIn slot c fd o (d ∷ cs) e h = (
  λ same. none_some (sym (ap (λ x. (slot x).fd) same ∙ h.1) ∙ e),
  open-NotIn slot c fd (slot d).link cs e h.2,
)
  where
    none_some : none ≡ some fd → ⊥
    none_some k = cc

-- The chain depends on the links and the descriptors only.
Chain-same :
    (slot slot' : ℕ → Slot) (o : Option ℕ) (cs : List ℕ)
    → ((d : ℕ) → ((slot' d).fd ≡ (slot d).fd) × ((slot' d).link ≡ (slot d).link))
    → Chain slot o cs
    → Chain slot' o cs
Chain-same slot slot' o [] same h = h
Chain-same slot slot' o (d ∷ cs) same h = (
  h.0,
  (same d).0 ∙ h.1,
  subst (λ o. Chain slot' o cs) (sym (same d).1) (Chain-same slot slot' (slot d).link cs same h.2),
)

-- What an operation on connection `c` has done to the table.
pub record Changed (c : ℕ) (t t' : Table) (fd link : Option ℕ) (instance_bit : Bool) : Type 0 where
  pub descriptor : (t'.slot c).fd ≡ fd
  pub next : (t'.slot c).link ≡ link
  pub rev : (t'.slot c).rev_instance ≡ instance_bit
  pub others : (d : ℕ) → d ≢ c → t'.slot d ≡ t.slot d

-- The connection's fields are those of `s`.
module _ (c : ℕ) (t t' : Table) (s : Slot) (put : t'.slot ≡ put_slot c s t.slot) where
  pub put-Changed : Changed c t t' s.fd s.link s.rev_instance
  put-Changed =
      let self : t'.slot c ≡ s = ap (λ (f : ℕ → Slot). f c) put ∙ put_self c s t.slot in
      record {
        descriptor = ap (λ (x : Slot). x.fd) self;
        next = ap (λ (x : Slot). x.link) self;
        rev = ap (λ (x : Slot). x.rev_instance) self;
        others = λ d n. ap (λ (f : ℕ → Slot). f d) put ∙ put_other c d s t.slot n;
      }

module _ (c : ℕ) (t : Table) where
  pub reusable-Changed :
      (b : Bool)
      → Changed c t
          (reusable_connection c b t)
          (t.slot c).fd
          (t.slot c).link
          (t.slot c).rev_instance
  unfolding reusable_connection
  reusable-Changed b =
      put-Changed c t (reusable_connection c b t) (record (t.slot c) { reusable = b }) refl

  pub free-Changed : Changed c t (free_connection c t) (t.slot c).fd t.free (t.slot c).rev_instance
  unfolding free_connection
  free-Changed = put-Changed c t (free_connection c t) (record (t.slot c) { link = t.free }) refl

  unfoldable pub events : Table
  events = record t { slot = put_slot c (without_events (t.slot c)) t.slot }

  pub events-Changed : Changed c t events (t.slot c).fd (t.slot c).link (t.slot c).rev_instance
  unfolding events
  events-Changed = put-Changed c t events (without_events (t.slot c)) refl

  pub fd-Changed : Changed c t (without_fd c t) none (t.slot c).link (t.slot c).rev_instance
  fd-Changed = put-Changed c t (without_fd c t) (record (t.slot c) { fd = none }) refl

-- A change of another field keeps the free connections.
pub Changed-IsFree :
    (c : ℕ) (t t' : Table) (cs : List ℕ)
    → Changed c t t' (t.slot c).fd (t.slot c).link (t.slot c).rev_instance
    → t'.free ≡ t.free
    → t'.free_n ≡ t.free_n
    → IsFree cs t
    → IsFree cs t'
Changed-IsFree c t t' cs ch f n h = record {
  chain =
      subst (λ o. Chain t'.slot o cs) (sym f) (Chain-same t.slot t'.slot t.free cs same h.chain);
  distinct = h.distinct;
  counted = n ∙ h.counted;
}
  where
    same : (d : ℕ) → ((t'.slot d).fd ≡ (t.slot d).fd) × ((t'.slot d).link ≡ (t.slot d).link)
    same d = elim (eq_or_ne d c) [
      | inl e ↦ (
        subst (λ d. (t'.slot d).fd ≡ (t.slot d).fd) (sym e) ch.descriptor,
        subst (λ d. (t'.slot d).link ≡ (t.slot d).link) (sym e) ch.next,
      )
      | inr k ↦ (ap (λ (x : Slot). x.fd) (ch.others d k), ap (λ (x : Slot). x.link) (ch.others d k))
    ]

-- One operation behind the other.
pub Changed-then :
    (c : ℕ) (t u v : Table) {fd link fd' link' : Option ℕ} {b b' : Bool}
    → Changed c t u fd link b
    → Changed c u v fd' link' b'
    → Changed c t v fd' link' b'
Changed-then c t u v h k = record {
  descriptor = k.descriptor;
  next = k.next;
  rev = k.rev;
  others = λ d n. k.others d n ∙ h.others d n;
}
