-- ===== src/Pool/Regions.antt =====
-- Regions of memory, and lists of them that lie apart.
use nginx_comment.Common.{◌≤◌, ◌⊎◌, inl, inr, List, [], ◌∷◌, ◌++◌, arith, Ptr}

-- From an address to the one behind the last.
abbrev pub Region : Type 0
Region = Ptr × Ptr

abbrev pub Apart : Region → Region → Type 0
Apart r s = (r.1 ≤ s.0) ⊎ (s.1 ≤ r.0)

abbrev pub Inside : Region → Region → Type 0
Inside r s = (s.0 ≤ r.0) × (r.1 ≤ s.1)

pub or_map : {A B C D : Type 0} → (A → C) → (B → D) → A ⊎ B → C ⊎ D
or_map f g (inl a) = inl (f a)
or_map f g (inr b) = inr (g b)

module _ {A : Type 0} where
  abbrev pub All : (A → Type 0) → List A → Type 0
  All P [] = Unit
  All P (x ∷ xs) = P x × All P xs

  abbrev pub Some : (A → Type 0) → List A → Type 0
  Some P [] = ⊥
  Some P (x ∷ xs) = P x ⊎ Some P xs

  -- Each element with each that comes later.
  abbrev pub Pairwise : (A → A → Type 0) → List A → Type 0
  Pairwise R [] = Unit
  Pairwise R (x ∷ xs) = All (R x) xs × Pairwise R xs

module _ {A : Type 0} (P : A → Type 0) where
  pub All-append : (xs ys : List A) → All P xs → All P ys → All P (xs ++ ys)
  All-append [] ys h k = k
  All-append (x ∷ xs) ys h k = (h.0, All-append xs ys h.1 k)

  pub All-parts : (xs ys : List A) → All P (xs ++ ys) → All P xs × All P ys
  All-parts [] ys h = (tt, h)
  All-parts (x ∷ xs) ys h = let (l, r) = All-parts xs ys h.1 in ((h.0, l), r)

  pub Some-right : (xs ys : List A) → Some P ys → Some P (xs ++ ys)
  Some-right [] ys h = h
  Some-right (x ∷ xs) ys h = inr (Some-right xs ys h)

  pub Some-left : (xs ys : List A) → Some P xs → Some P (xs ++ ys)
  Some-left [] ys h = elim h [ ]
  Some-left (x ∷ xs) ys (inl h) = inl h
  Some-left (x ∷ xs) ys (inr h) = inr (Some-left xs ys h)

  pub Some-parts : (xs ys : List A) → Some P (xs ++ ys) → Some P xs ⊎ Some P ys
  Some-parts [] ys h = inr h
  Some-parts (x ∷ xs) ys (inl h) = inl (inl h)
  Some-parts (x ∷ xs) ys (inr h) = elim (Some-parts xs ys h) [ inl l ↦ inl (inr l) | inr r ↦ inr r ]

module _ {A : Type 0} (P Q : A → Type 0) (f : (x : A) → P x → Q x) where
  pub All-weaken : (xs : List A) → All P xs → All Q xs
  All-weaken [] h = tt
  All-weaken (x ∷ xs) h = (f x h.0, All-weaken xs h.1)

  pub Some-weaken : (xs : List A) → Some P xs → Some Q xs
  Some-weaken [] h = h
  Some-weaken (x ∷ xs) (inl h) = inl (f x h)
  Some-weaken (x ∷ xs) (inr h) = inr (Some-weaken xs h)

-- A new region apart from all others, at the end.
pub Pairwise-snoc :
    (xs : List Region) (r : Region)
    → Pairwise Apart xs
    → All (Apart r) xs
    → Pairwise Apart (xs ++ r ∷ [])
Pairwise-snoc [] r h k = (tt, tt)
Pairwise-snoc (x ∷ xs) r h k =
    (All-append (Apart x) xs (r ∷ []) h.0 (ground arith, tt), Pairwise-snoc xs r h.1 k.1)
