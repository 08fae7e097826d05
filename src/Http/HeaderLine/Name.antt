-- ===== src/Http/HeaderLine/Name.antt =====
-- The name of a header: its hash, and its bytes in lower case in the array and the index.
use mathlib.Core.List.{append-nil, append_assoc}
use nginx_comment.Common.{
  length-set, ℕ, zero, suc, ◌+◌, ◌%◌, ◌≤◌, ◌<◌, ◌≡◌, ◌≢◌, refl, ap, ◌∙◌, [], ◌∷◌, ◌++◌, map, arith,
  length, take, set, Bytes,
}
use nginx_comment.Http.Request.{cr, lf, lc_header_len}
use nginx_comment.Http.HeaderLine.{lowcase, hash_step, add_to_name, Machine}

-- Letters, digits and dashes.
abbrev pub NameBytes : Bytes → Type 0
NameBytes [] = Unit
NameBytes (c ∷ cs) = (lowcase c ≢ 0) × (c ≢ cr) × (c ≢ lf) × NameBytes cs

-- The hash of a name in lower case.
abbrev pub hash_from : ℕ → Bytes → ℕ
hash_from h [] = h
hash_from h (c ∷ cs) = hash_from (hash_step h c) cs

-- The machine behind some bytes of a name.
abbrev pub named : Machine → Bytes → Machine
named m [] = m
named m (c ∷ cs) = named (add_to_name m (lowcase c)) cs

-- What the bytes of a name leave in the array and in the index.
abbrev pub stored : Bytes → ℕ → Bytes → Bytes
stored h i [] = h
stored h i (c ∷ cs) = stored (set h i (lowcase c)) ((i + 1) % lc_header_len) cs

abbrev pub index_from : ℕ → Bytes → ℕ
index_from i [] = i
index_from i (c ∷ cs) = index_from ((i + 1) % lc_header_len) cs

pub named_lem :
    (m : Machine) (cs : Bytes)
    → named m cs ≡ record m {
      request = record (m.request) { lowcase_header = stored m.request.lowcase_header m.i cs };
      hash = hash_from m.hash (map lowcase cs);
      i = index_from m.i cs;
    }
named_lem m [] = refl
named_lem m (c ∷ cs) = named_lem (add_to_name m (lowcase c)) cs

pub index_from_lem :
    (i : ℕ) (cs : Bytes) → i < lc_header_len → index_from i cs ≡ (i + length cs) % lc_header_len
index_from_lem i [] h = omega arith
index_from_lem i (c ∷ cs) h =
    omega (arith, index_from_lem ((i + 1) % lc_header_len) cs (omega arith))

take-set :
    (h : Bytes) (i : ℕ) (c : ℕ) → i < length h → take (suc i) (set h i c) ≡ take i h ++ (c ∷ [])
take-set [] i c h = elim h [ ]
take-set (x ∷ xs) zero c h = refl
take-set (x ∷ xs) (suc i) c h = ap (◌∷◌ x) (take-set xs i c (omega arith))

-- The index `j` wraps only behind the last byte.
pub take-stored :
    (h : Bytes) (i j : ℕ) (cs : Bytes)
    → (i < lc_header_len → j ≡ i)
    → i + length cs ≤ lc_header_len
    → length h ≡ lc_header_len
    → take (i + length cs) (stored h j cs) ≡ take i h ++ map lowcase cs
take-stored h i j [] w l e = rw append-nil (ap (λ n. take n h) (omega arith))
take-stored h i j (c ∷ cs) w l e =
    let same : j ≡ i = w (omega arith) in
    ap (λ n. take n (stored h j (c ∷ cs))) (omega arith)
    ∙ take-stored (set h j (lowcase c)) (suc i) ((j + 1) % lc_header_len) cs (λ lt. omega arith)
        (omega arith) (length-set h j (lowcase c) ∙ e)
    ∙ rw same (
        rw (take-set h i (lowcase c) (omega arith))
          (append_assoc (take i h) (lowcase c ∷ []) (map lowcase cs)))
