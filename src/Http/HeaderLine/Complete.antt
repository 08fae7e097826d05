-- ===== src/Http/HeaderLine/Complete.antt =====
-- A well-formed header line is read, with the name's hash and the name in lower case.
use nginx_comment.Common.{
  ℕ, ◌+◌, ◌%◌, ◌≤◌, ◌<◌, ◌≡◌, ◌≢◌, refl, ap, ◌∙◌, Bool, false, [], ◌∷◌, ◌++◌, map, arith, length,
  take, replicate, length-replicate, Mem, Ptr, Bytes, At, At-append, At-moved,
}
use nginx_comment.Common.Scan.{stop, scan}
use nginx_comment.Http.Request.{ok, Buf, Request, Saved, Reply, cr, lf, lc_header_len}
use nginx_comment.Http.HeaderLine.{
  start, name, almost_done, state_at, lowcase, begin_name, Machine, done, step_in, step, restored,
  finish, parse_header_line,
}
use nginx_comment.Http.HeaderLine.Name.{
  NameBytes, hash_from, named, stored, named_lem, index_from_lem, take-stored,
}
use nginx_comment.Http.HeaderLine.Read.{
  ValueBytes, ends_in_space, in_state, read, read_name, read_rest,
}

-- The machine behind the first byte of a name, at `p`.
abbrev begun : Machine → Ptr → ℕ → Machine
begun m p n =
    begin_name
      (record m { request = record (m.request) { header_name_start = p; invalid_header = false } })
      (lowcase n)

-- The bytes of a line: name, colon, spaces, value, and the end of the line.
abbrev pub header_line : Bytes → ℕ → Bytes → Bytes
header_line ns k vs = ns ++ ((b':' ∷ replicate k b' ') ++ (vs ++ (cr ∷ lf ∷ [])))

-- What is known of a line that was read from `p`.
pub record LineRead (x : Reply) (p : Ptr) (ns : Bytes) (k : ℕ) (vs : Bytes) : Type 0 where
  pub code : x.code ≡ ok
  pub name_start : x.request.header_name_start ≡ p
  pub name_end : x.request.header_name_end ≡ p + length ns
  pub value_start : x.request.header_start ≡ p + length ns + 1 + k
  pub value_end : x.request.header_end ≡ p + length ns + 1 + k + length vs
  pub valid : x.request.invalid_header ≡ false
  pub hash : x.saved.header_hash ≡ hash_from 0 (map lowcase ns)
  pub index : x.saved.lowcase_index ≡ length ns % lc_header_len
  pub state : x.saved.state ≡ 0
  pub behind : x.buf.pos ≡ p + length ns + 1 + k + length vs + 2

module _ (u : Bool) (mem : Mem) (last : ℕ) where
  read_line :
      (n : ℕ) (ns : Bytes) (k v : ℕ) (vs : Bytes) (m : Machine) (p : Ptr)
      → At mem p (header_line (n ∷ ns) k (v ∷ vs))
      → NameBytes (n ∷ ns)
      → v ≢ b' '
      → ValueBytes (v ∷ vs)
      → ends_in_space false vs ≡ false
      → p + length ns + k + length vs + 5 ≤ last
      → scan (step u mem) last (in_state start m) p
        ≡ stop (
            done
              (in_state almost_done (record (named (begun m p n) ns) {
                request = record ((named (begun m p n) ns).request) {
                  header_name_end = p + 1 + length ns;
                  header_start = p + 1 + length ns + 1 + k;
                  header_end = p + 1 + length ns + 2 + k + length vs;
                };
              }))
              (p + 1 + length ns + 3 + k + length vs))
  read_line n ns k v vs m p a nb nv vb g h =
      let (a1, a2) = At-append mem p (n ∷ ns) _ a in
      let (a3, a4) = At-append mem (p + length (n ∷ ns)) (b':' ∷ replicate k b' ') _ a2 in
      let (a5, a6) =
        At-append mem (p + length (n ∷ ns) + length (b':' ∷ replicate k b' ')) (v ∷ vs) _ a4 in
      let a3' : At mem (p + 1 + length ns) (b':' ∷ replicate k b' ') =
        At-moved mem (b':' ∷ replicate k b' ') (omega arith) a3 in
      let a5' : At mem (p + 1 + length ns + 1 + k) (v ∷ vs) =
        At-moved mem (v ∷ vs) (omega (arith, length-replicate {A = ℕ} k b' ')) a5 in
      let a6' : At mem (p + 1 + length ns + 2 + k + length vs) (cr ∷ lf ∷ []) =
        At-moved mem (cr ∷ lf ∷ []) (omega (arith, length-replicate {A = ℕ} k b' ')) a6 in
      read u mem last start name m (begun m p n) p (omega arith) (unfold step_in in ground arith)
      ∙ read_name u mem last ns (begun m p n) (p + 1) a1.1 nb.3 (omega arith)
      ∙ read_rest u mem last k v vs (named (begun m p n) ns) (p + 1 + length ns) a3' a5' a6' nv vb g
          (omega arith)

read-LineRead :
    (v : Saved) (b : Buf) (m : Machine) (p n : ℕ) (ns : Bytes) (k w : ℕ) (vs : Bytes)
    → LineRead
        (finish v b (
          stop (
            done
              (in_state almost_done (record (named (begun m p n) ns) {
                request = record ((named (begun m p n) ns).request) {
                  header_name_end = p + 1 + length ns;
                  header_start = p + 1 + length ns + 1 + k;
                  header_end = p + 1 + length ns + 2 + k + length vs;
                };
              }))
              (p + 1 + length ns + 3 + k + length vs))))
        p
        (n ∷ ns)
        k
        (w ∷ vs)
unfolding finish
read-LineRead v b m p n ns k w vs = rw (named_lem (begun m p n) ns) (record {
  code = refl;
  name_start = refl;
  name_end = omega arith;
  value_start = omega arith;
  value_end = omega arith;
  valid = refl;
  hash = refl;
  index = omega (arith, index_from_lem 1 ns (omega arith));
  state = refl;
  behind = omega arith;
})

-- Where a fresh line's buffer holds a name of letters, digits and dashes, a colon, any number of
-- spaces, a value that neither begins nor ends in a space, and CR LF, with anything behind, the
-- line is read: its name and value are where the text has them, it is valid, the hash is that of
-- the name in lower case, the index is the length of the name modulo 32, and the position stands
-- behind the line.
pub parse_header_line_complete :
    (u : Bool) (mem : Mem) (r : Request) (v : Saved) (b : Buf) (n : ℕ) (ns : Bytes) (k w : ℕ)
    (vs : Bytes)
    → v.state ≡ 0
    → At mem b.pos (header_line (n ∷ ns) k (w ∷ vs))
    → NameBytes (n ∷ ns)
    → w ≢ b' '
    → ValueBytes (w ∷ vs)
    → ends_in_space false vs ≡ false
    → b.pos + length ns + k + length vs + 5 ≤ b.last
    → LineRead (parse_header_line u mem r v b) b.pos (n ∷ ns) k (w ∷ vs)
unfolding parse_header_line state_at finish
parse_header_line_complete u mem r v b n ns k w vs s a nb nw vb g h =
    rw (s, read_line u mem b.last n ns k w vs (restored r v) b.pos a nb nw vb g h)
      (read-LineRead v b (restored r v) b.pos n ns k w vs)

-- Where a fresh line's buffer holds a name of at most 32 letters, digits and dashes, a colon, spaces,
-- a value that neither begins nor ends in a space, and CR LF, the array of 32 bytes begins with the
-- name in lower case.
parse_header_line_lowers :
    (u : Bool) (mem : Mem) (r : Request) (v : Saved) (b : Buf) (n : ℕ) (ns : Bytes) (k w : ℕ)
    (vs : Bytes)
    → v.state ≡ 0
    → length r.lowcase_header ≡ lc_header_len
    → length ns < lc_header_len
    → At mem b.pos (header_line (n ∷ ns) k (w ∷ vs))
    → NameBytes (n ∷ ns)
    → w ≢ b' '
    → ValueBytes (w ∷ vs)
    → ends_in_space false vs ≡ false
    → b.pos + length ns + k + length vs + 5 ≤ b.last
    → take (length (n ∷ ns)) (parse_header_line u mem r v b).request.lowcase_header
      ≡ map lowcase (n ∷ ns)
unfolding parse_header_line state_at finish
parse_header_line_lowers u mem r v b n ns k w vs s l short a nb nw vb g h =
    rw (s, read_line u mem b.last n ns k w vs (restored r v) b.pos a nb nw vb g h)
      (rw (named_lem (begun (restored r v) b.pos n) ns) (
        ap (λ x. take x (stored r.lowcase_header 0 (n ∷ ns))) {x = length (n ∷ ns)} (omega arith)
        ∙ take-stored r.lowcase_header 0 0 (n ∷ ns) (λ _. refl) (omega arith) l))
