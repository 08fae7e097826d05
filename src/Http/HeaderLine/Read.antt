-- ===== src/Http/HeaderLine/Read.antt =====
-- The rounds of the header line's parser over the parts of a well-formed line.
use nginx_comment.Common.{
  ℕ, zero, suc, ◌+◌, ◌≤◌, ◌<◌, ◌≡◌, ◌≢◌, ap, ◌∙◌, Bool, true, false, not, ◌&&◌, ◌==◌, if◌then◌else◌,
  [], ◌∷◌, arith, length, replicate, Mem, Ptr, Bytes, At,
}
use nginx_comment.Common.Scan.{next, stop, scan, scan_next, scan_stop}
use nginx_comment.Http.Request.{cr, lf}
use nginx_comment.Http.HeaderLine.{
  HeaderState, name, space_before_value, value, space_after_value, almost_done, lowcase,
  add_to_name, Machine, done, step_in, step,
}
use nginx_comment.Http.HeaderLine.Steps.{step_advances}
use nginx_comment.Http.HeaderLine.Name.{NameBytes, named}

abbrev pub ValueBytes : Bytes → Type 0
ValueBytes [] = Unit
ValueBytes (c ∷ cs) = (c ≢ cr) × (c ≢ lf) × (c ≢ 0) × ValueBytes cs

-- Whether a value that goes on ends in a space.
abbrev pub ends_in_space : Bool → Bytes → Bool
ends_in_space gap [] = gap
ends_in_space gap (c ∷ cs) = ends_in_space (c == b' ') cs

abbrev pub in_value : Bool → HeaderState
in_value gap = if gap then space_after_value else value

-- The end that is noted behind some bytes of a value, which begin at `p`.
abbrev pub end_after : Bool → Ptr → Ptr → Bytes → Ptr
end_after gap e p [] = e
end_after gap e p (c ∷ cs) =
    end_after (c == b' ') (if not gap && c == b' ' then p else e) (p + 1) cs

abbrev pub in_state : HeaderState → Machine → Machine
in_state s m = record m { state = s }

abbrev pub with_end : Machine → Ptr → Machine
with_end m e = record m { request = record (m.request) { header_end = e } }

module _ (u : Bool) (mem : Mem) (last : ℕ) where
  pub read :
      (s s' : HeaderState) (m m' : Machine) (p : Ptr)
      → p < last
      → step_in s u mem (in_state s m) p ≡ next (in_state s' m') p
      → scan (step u mem) last (in_state s m) p ≡ scan (step u mem) last (in_state s' m') (p + 1)
  read s s' m m' p h e =
      scan_next (step u mem) (step_advances u mem) last (in_state s m) (in_state s' m') p p h e

  pub read_name :
      (cs : Bytes) (m : Machine) (p : Ptr)
      → At mem p cs
      → NameBytes cs
      → p + length cs ≤ last
      → scan (step u mem) last (in_state name m) p
        ≡ scan (step u mem) last (in_state name (named m cs)) (p + length cs)
  read_name [] m p a n h = ap (scan (step u mem) last (in_state name m)) (omega arith)
  read_name (c ∷ cs) m p a n h =
      read name name m (add_to_name m (lowcase c)) p (omega arith) (unfold step_in in ground arith)
      ∙ read_name cs (add_to_name m (lowcase c)) (p + 1) a.1 n.3 (omega arith)
      ∙ ap (scan (step u mem) last (in_state name (named m (c ∷ cs)))) (omega arith)

  read_spaces :
      (k : ℕ) (m : Machine) (p : Ptr)
      → At mem p (replicate k b' ')
      → p + k ≤ last
      → scan (step u mem) last (in_state space_before_value m) p
        ≡ scan (step u mem) last (in_state space_before_value m) (p + k)
  read_spaces zero m p a h =
      ap (scan (step u mem) last (in_state space_before_value m)) (omega arith)
  read_spaces (suc k) m p a h =
      read space_before_value space_before_value m m p (omega arith)
        (unfold step_in in ground arith)
      ∙ read_spaces k m (p + 1) a.1 (omega arith)
      ∙ ap (scan (step u mem) last (in_state space_before_value m)) (omega arith)

  read_value :
      (cs : Bytes) (gap : Bool) (m : Machine) (e p : Ptr)
      → At mem p cs
      → ValueBytes cs
      → p + length cs ≤ last
      → scan (step u mem) last (in_state (in_value gap) (with_end m e)) p
        ≡ scan
            (step u mem)
            last
            (in_state (in_value (ends_in_space gap cs)) (with_end m (end_after gap e p cs)))
            (p + length cs)
  read_value [] gap m e p a n h =
      ap (scan (step u mem) last (in_state (in_value gap) (with_end m e))) (omega arith)
  read_value (c ∷ cs) gap m e p a n h =
      let e' : Ptr = if not gap && c == b' ' then p else e in
      read (in_value gap) (in_value (c == b' ')) (with_end m e) (with_end m e') p (omega arith)
        (value_step gap c m e p a.0 n)
      ∙ read_value cs (c == b' ') m e' (p + 1) a.1 n.3 (omega arith)
      ∙ ap
          (scan (step u mem) last (
            in_state (in_value (ends_in_space gap (c ∷ cs)))
              (with_end m (end_after gap e p (c ∷ cs)))))
          (omega arith)
    where
      value_step :
          (gap : Bool) (c : ℕ) (m : Machine) (e p : Ptr)
          → mem p ≡ c
          → ValueBytes (c ∷ cs)
          → step_in (in_value gap) u mem (in_state (in_value gap) (with_end m e)) p
            ≡ next
                (in_state
                  (in_value (c == b' '))
                  (with_end m (if not gap && c == b' ' then p else e)))
                p
      value_step true c m e p a n = unfold step_in in ground arith
      value_step false c m e p a n = unfold step_in in ground arith

  -- ":", spaces, the value, and the end of the line.
  pub read_rest :
      (k v : ℕ) (vs : Bytes) (m : Machine) (p : Ptr)
      → At mem p (b':' ∷ replicate k b' ')
      → At mem (p + 1 + k) (v ∷ vs)
      → At mem (p + 2 + k + length vs) (cr ∷ lf ∷ [])
      → v ≢ b' '
      → ValueBytes (v ∷ vs)
      → ends_in_space false vs ≡ false
      → p + k + length vs + 4 ≤ last
      → scan (step u mem) last (in_state name m) p
        ≡ stop (
            done
              (in_state almost_done (record m {
                request = record (m.request) {
                  header_name_end = p;
                  header_start = p + 1 + k;
                  header_end = p + 2 + k + length vs;
                };
              }))
              (p + 3 + k + length vs))
  read_rest k v vs m p a b c nv n g h =
      let m1 = record m { request = record (m.request) { header_name_end = p } } in
      let m2 = record m1 { request = record (m1.request) { header_start = p + 1 + k } } in
      let e : Ptr = end_after false m.request.header_end (p + 1 + k + 1) vs in
      let q : Ptr = p + 2 + k + length vs in
      read name space_before_value m m1 p (omega arith) (unfold step_in lowcase in ground arith)
      ∙ read_spaces k m1 (p + 1) a.1 (omega arith)
      ∙ read space_before_value value m1 m2 (p + 1 + k) (omega arith)
          (unfold step_in in ground arith)
      ∙ read_value vs false m2 m.request.header_end (p + 1 + k + 1) b.1 n.3 (omega arith)
      ∙ rw g (
          ap (scan (step u mem) last (in_state value (with_end m2 e))) (omega arith)
          ∙ read value almost_done (with_end m2 e) (with_end m2 q) q (omega arith)
              (unfold step_in in ground arith)
          ∙ scan_stop (step u mem) (step_advances u mem) last (in_state almost_done (with_end m2 q))
              (q + 1) (done (in_state almost_done (with_end m2 q)) (q + 1)) (omega arith)
              (unfold step_in in ground arith)
          ∙ ap (λ x. stop (done (in_state almost_done (with_end m2 q)) x)) (omega arith))
