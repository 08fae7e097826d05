-- ===== src/Queue/Ring.antt =====
-- What a queue holds: the elements in their order, by the links from the head around to the head.
use nginx_comment.Common.{◌≡◌, ◌≢◌, sym, ◌∙◌, List, [], ◌∷◌, ◌++◌, arith, Ptr}
use nginx_comment.Queue.{Links, updated, set_prev, set_next}

-- `a` stands directly before `b`.
abbrev pub Edge : Links → Ptr → Ptr → Type 0
Edge s a b = (s.next a ≡ b) × (s.prev b ≡ a)

-- From `a` the links lead through the nodes of a list.
abbrev pub Walk : Links → Ptr → List Ptr → Type 0
Walk s a [] = Unit
Walk s a (x ∷ xs) = Edge s a x × Walk s x xs

abbrev pub Out : Ptr → List Ptr → Type 0
Out u [] = Unit
Out u (x ∷ xs) = (u ≢ x) × Out u xs

abbrev pub Distinct : List Ptr → Type 0
Distinct [] = Unit
Distinct (x ∷ xs) = Out x xs × Distinct xs

pub record IsQueue (s : Links) (h : Ptr) (xs : List Ptr) : Type 0 where
  pub ring : Walk s h (xs ++ h ∷ [])
  pub distinct : Distinct (h ∷ xs)

-- The last node of a path.
abbrev pub last_of : Ptr → List Ptr → Ptr
last_of a [] = a
last_of a (x ∷ xs) = last_of x xs

-- `u` is no node of a path but perhaps its last.
abbrev pub Passed : Ptr → Ptr → List Ptr → Type 0
Passed u a [] = Unit
Passed u a (x ∷ xs) = (u ≢ a) × Passed u x xs

pub Walk-append :
    (s : Links) (a : Ptr) (xs ys : List Ptr)
    → Walk s a (xs ++ ys)
    → Walk s a xs × Walk s (last_of a xs) ys
Walk-append s a [] ys h = (tt, h)
Walk-append s a (x ∷ xs) ys h = let (l, r) = Walk-append s x xs ys h.1 in ((h.0, l), r)

pub append-Walk :
    (s : Links) (a : Ptr) (xs ys : List Ptr)
    → Walk s a xs
    → Walk s (last_of a xs) ys
    → Walk s a (xs ++ ys)
append-Walk s a [] ys h k = k
append-Walk s a (x ∷ xs) ys h k = (h.0, append-Walk s x xs ys h.1 k)

pub updated_self : (f : Ptr → Ptr) (p v : Ptr) → updated f p v p ≡ v
updated_self f p v = ground arith

pub updated_ne : (f : Ptr → Ptr) (p v q : Ptr) → p ≢ q → updated f p v q ≡ f q
updated_ne f p v q h = ground arith

-- A write spares a path that does not pass by it.
pub keep_next :
    (s : Links) (u v a : Ptr) (xs : List Ptr)
    → Passed u a xs
    → Walk s a xs
    → Walk (set_next u v s) a xs
keep_next s u v a [] o h = tt
keep_next s u v a (x ∷ xs) o h =
    ((updated_ne s.next u v a o.0 ∙ h.0.0, h.0.1), keep_next s u v x xs o.1 h.1)

pub keep_prev :
    (s : Links) (u v a : Ptr) (xs : List Ptr) → Out u xs → Walk s a xs → Walk (set_prev u v s) a xs
keep_prev s u v a [] o h = tt
keep_prev s u v a (x ∷ xs) o h =
    ((h.0.0, updated_ne s.prev u v x o.0 ∙ h.0.1), keep_prev s u v x xs o.1 h.1)

pub Out-append : (u : Ptr) (xs ys : List Ptr) → Out u (xs ++ ys) → Out u xs × Out u ys
Out-append u [] ys h = (tt, h)
Out-append u (x ∷ xs) ys h = let (l, r) = Out-append u xs ys h.1 in ((h.0, l), r)

pub append-Out : (u : Ptr) (xs ys : List Ptr) → Out u xs → Out u ys → Out u (xs ++ ys)
append-Out u [] ys h k = k
append-Out u (x ∷ xs) ys h k = (h.0, append-Out u xs ys h.1 k)

pub Out-Passed : (u a : Ptr) (xs : List Ptr) → u ≢ a → Out u xs → Passed u a xs
Out-Passed u a [] n o = tt
Out-Passed u a (x ∷ xs) n o = (n, Out-Passed u x xs o.0 o.1)

-- The last node of a path without a repetition is passed by none before it.
pub last_of_ne : (a x : Ptr) (xs : List Ptr) → Out a (x ∷ xs) → last_of x xs ≢ a
last_of_ne a x [] o e = o.0 (sym e)
last_of_ne a x (y ∷ xs) o e = last_of_ne a y xs o.1 e

pub last_of-Passed : (a : Ptr) (xs : List Ptr) → Distinct (a ∷ xs) → Passed (last_of a xs) a xs
last_of-Passed a [] d = tt
last_of-Passed a (x ∷ xs) d = (last_of_ne a x xs d.0, last_of-Passed x xs d.1)

-- A node that is not in a list is not its last.
pub Out-last_of : (u a : Ptr) (xs : List Ptr) → u ≢ a → Out u xs → u ≢ last_of a xs
Out-last_of u a [] n o = n
Out-last_of u a (x ∷ xs) n o = Out-last_of u x xs o.0 o.1
