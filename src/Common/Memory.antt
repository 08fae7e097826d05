-- ===== src/Common/Memory.antt =====
-- Memory as a function from addresses to bytes, and the text that lies at an address.
use Prim.Native.Char.{code}
use Prim.Native.Nat.{ℕ, ◌+◌}
use Prim.Native.String.{String}
use mathlib.Core.Path.{◌≡◌, subst}
use native.Mathlib.Omega.{arith}
use nginx_comment.Common.Lists.{length}
use mathlib.Core.List.{List, [], ◌∷◌, ◌++◌}

-- A pointer is an address, and `NULL` is 0.
abbrev pub Ptr : Type 0
Ptr = ℕ

abbrev pub Mem : Type 0
Mem = Ptr → ℕ

abbrev pub Bytes : Type 0
Bytes = List ℕ

-- The bytes `bs` lie in memory from address `p` on.
abbrev pub At : Mem → Ptr → Bytes → Type 0
At mem p [] = Unit
At mem p (b ∷ bs) = (mem p ≡ b) × At mem (p + 1) bs

-- The code points of a text: its bytes, if it is ASCII.
abbrev pub codes : String → Bytes
codes String.[] = []
codes (String.◌∷◌ c s) = code c ∷ codes s

pub At-append :
    (mem : Mem) (p : Ptr) (xs ys : Bytes)
    → At mem p (xs ++ ys)
    → At mem p xs × At mem (p + length xs) ys
At-append mem p [] ys h = (tt, subst (λ q. At mem q ys) (omega arith) h)
At-append mem p (x ∷ xs) ys h =
    let (l, r) = At-append mem (p + 1) xs ys h.1 in
    ((h.0, l), subst (λ q. At mem q ys) (omega arith) r)

pub At-moved : (mem : Mem) (bs : Bytes) {p q : Ptr} → p ≡ q → At mem p bs → At mem q bs
At-moved mem bs e h = subst (λ q. At mem q bs) e h
