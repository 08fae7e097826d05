-- ===== src/Http/Headers/Key.antt =====
-- The header with the key of a handshake, and a name shorter than what it is compared with.
use mathlib.Core.Path.{subst}
use nginx_comment.Common.{
  ℕ, suc, ◌+◌, ◌-◌, ◌<◌, ◌≤◌, ◌≡◌, ◌≢◌, ◌⊎◌, refl, sym, ap, ◌∙◌, Bool, true, false, ◌&&◌, Option,
  some, [], ◌∷◌, ◌++◌, ◌==◌, ==_iff, ==_ne, if◌then◌else◌, if_true, if_false, inl, inr, arith,
  length, length-append, take, Mem, Ptr, Bytes, codes, At, At-moved,
}
use nginx_comment.Http.Request.{Request, Saved}
use nginx_comment.Http.Reading.{write_at}
use nginx_comment.Http.Headers.{
  poke, starts_at, upgrade_name, websocket_value, key_name, Wish, look, lower_key, terminate,
  take_header,
}

-- A write outside of a text spares it.
pub poke-At :
    (mem : Mem) (p v q : Ptr) (bs : Bytes)
    → (p < q) ⊎ (q + length bs ≤ p)
    → At mem q bs
    → At (poke p v mem) q bs
poke-At mem p v q [] o h = tt
poke-At mem p v q (b ∷ bs) o h = (
  if_false _ (==_ne q p (λ e. ground arith)) ∙ h.0,
  poke-At mem p v (q + 1) bs (ground arith) h.1,
)

pub write_at-spares :
    (mem : Mem) (p : Ptr) (new : Bytes) (q : Ptr) (bs : Bytes)
    → (p + length new ≤ q) ⊎ (q + length bs ≤ p)
    → At mem q bs
    → At (write_at p new mem) q bs
write_at-spares mem p [] q bs o h = h
write_at-spares mem p (b ∷ new) q bs o h =
    write_at-spares (poke p b mem) (p + 1) new q bs (ground arith)
      (poke-At mem p b q bs (ground arith) h)

pub write_at-At : (mem : Mem) (p : Ptr) (new : Bytes) → At (write_at p new mem) p new
write_at-At mem p [] = tt
write_at-At mem p (b ∷ new) =
    let here : At (poke p b mem) p (b ∷ []) = (if_true _ ((==_iff p p).1 refl), tt) in
    (
      (write_at-spares (poke p b mem) (p + 1) new p (b ∷ []) (inr (omega arith)) here).0,
      write_at-At (poke p b mem) (p + 1) new,
    )

starts_at-At : (mem : Mem) (p : Ptr) (text : Bytes) → At mem p text → starts_at mem p text ≡ true
starts_at-At mem p [] h = refl
starts_at-At mem p (b ∷ text) h = rw ((==_iff (mem p) b).1 h.0) (starts_at-At mem (p + 1) text h.1)

starts_at-ne : (mem : Mem) (p b : ℕ) (text : Bytes) → mem p ≢ b → starts_at mem p (b ∷ text) ≡ false
starts_at-ne mem p b text n = ap (λ c. c && starts_at mem (p + 1) text) (==_ne (mem p) b n)

append-At :
    (mem : Mem) (p : Ptr) (xs ys : Bytes)
    → At mem p xs
    → At mem (p + length xs) ys
    → At mem p (xs ++ ys)
append-At mem p [] ys h k = At-moved mem ys (omega arith) k
append-At mem p (x ∷ xs) ys h k =
    (h.0, append-At mem (p + 1) xs ys h.1 (At-moved mem ys (omega arith) k))

-- A header with a name and a value in memory: the name comes first, and the memory for the name in
-- small letters, which are those that the parser kept, lies apart from the value and its end.
pub record IsHeader (name value : Bytes) (lowcase_key : Ptr) (r : Request) (v : Saved) (mem : Mem)
    : Type 0 where
  pub value_there : At mem (r.header_start) value
  pub value_end : r.header_end ≡ r.header_start + length value
  pub name_len : r.header_name_end ≡ r.header_name_start + length name
  pub in_order : r.header_name_end < r.header_start
  pub counted : v.lowcase_index ≡ length name
  pub lowered : take (length name) (r.lowcase_header) ≡ name
  pub apart : (lowcase_key + length name ≤ r.header_start) ⊎ (r.header_end < lowcase_key)

-- Memory behind the branch: the name in small letters, and the value with a zero behind it.
lower_key-At :
    (name value : Bytes) (lowcase_key : Ptr) (r : Request) (v : Saved) (mem : Mem)
    → IsHeader name value lowcase_key r v mem
    → At (lower_key r v lowcase_key (terminate r mem)) lowcase_key name
      × At (lower_key r v lowcase_key (terminate r mem)) (r.header_start) (value ++ 0 ∷ [])
unfolding lower_key
lower_key-At name value lowcase_key r v mem h =
    let len : r.header_name_end - r.header_name_start ≡ length name = omega (arith, h.name_len) in
    let m1 = poke (r.header_name_start + (r.header_name_end - r.header_name_start)) 0 mem in
    let m2 = terminate r mem in
    let end = r.header_start + (r.header_end - r.header_start) in
    let first : At m1 (r.header_start) value =
      poke-At mem (r.header_name_start + (r.header_name_end - r.header_name_start)) 0
        (r.header_start) value (inl (omega (arith, h.name_len, h.in_order))) (h.value_there) in
    let second : At m2 (r.header_start) value =
      poke-At m1 end 0 (r.header_start) value (inr (omega (arith, h.value_end))) first in
    let zero_there : At m2 (r.header_start + length value) (0 ∷ []) =
      At-moved m2 (0 ∷ []) {p = end} (omega (arith, h.value_end))
        (if_true _ ((==_iff end end).1 refl), tt) in
    let both = append-At m2 (r.header_start) value (0 ∷ []) second zero_there in
    let same : lower_key r v lowcase_key m2 ≡ write_at lowcase_key name m2 =
      if_true {b = (r.header_name_end - r.header_name_start) == v.lowcase_index} _ (
        (==_iff (r.header_name_end - r.header_name_start) (v.lowcase_index)).1
          (len ∙ sym (h.counted)))
      ∙ ap (λ n. write_at lowcase_key (take n (r.lowcase_header)) m2) len
      ∙ ap (λ l. write_at lowcase_key l m2) (h.lowered) in
    (
      subst (λ m. At m lowcase_key name) (sym same) (write_at-At m2 lowcase_key name),
      subst (λ m. At m (r.header_start) (value ++ 0 ∷ [])) (sym same)
          (write_at-spares m2 lowcase_key name (r.header_start) (value ++ 0 ∷ [])
            (elim (h.apart) [
              | inl a ↦ inl a
              | inr b ↦ inr (omega (arith, length-append value (0 ∷ []), h.value_end, b))
            ])
            both),
    )

-- The header `Sec-WebSocket-Key`, in any letters, where there is memory: `r->sec_websocket_key` is its
-- value, a text that ends where the value does, and `r->upgrade` stays.
pub take_header-key :
    (value : Bytes) (lowcase_key : Ptr) (r : Request) (v : Saved) (mem : Mem) (w : Wish)
    → IsHeader key_name value lowcase_key r v mem
    → (mem' : Mem) × (take_header true (some lowcase_key) r v mem w
        ≡ some (mem', record { upgrade = w.upgrade; sec_websocket_key = r.header_start }))
      × At mem' (r.header_start) (value ++ 0 ∷ [])
unfolding take_header look
take_header-key value lowcase_key r v mem w h =
    let mem' = lower_key r v lowcase_key (terminate r mem) in
    let (name, text) = lower_key-At key_name value lowcase_key r v mem h in
    let is_key = starts_at-At mem' lowcase_key key_name name in
    let no_upgrade : starts_at mem' lowcase_key upgrade_name ≡ false =
      starts_at-ne mem' lowcase_key 117 (codes "pgrade") (λ e. omega (arith, name.0, e)) in
    let result : Bool → Ptr → Option (Mem × Wish) =
      λ u k. some (mem', record { upgrade = u; sec_websocket_key = k }) in
    (
      mem',
      ap
            (λ u.
              result u (
                if starts_at mem' lowcase_key key_name
                then r.header_start
                else w.sec_websocket_key))
            (if_false _ (ap (λ b. b && starts_at mem' (r.header_start) websocket_value) no_upgrade))
          ∙ ap (result (w.upgrade)) (if_true _ is_key),
      text,
    )

-- A name that ends before the text does: whether the comparison finds them equal is decided by the
-- memory behind the name, of which it is no part.
pub starts_at-short :
    (mem : Mem) (p : Ptr) (name rest : Bytes)
    → At mem p name
    → starts_at mem p (name ++ rest) ≡ starts_at mem (p + length name) rest
starts_at-short mem p [] rest h = ap (λ q. starts_at mem q rest) {x = p} {y = p + 0} (omega arith)
starts_at-short mem p (b ∷ name) rest h =
    ap (λ c. c && starts_at mem (p + 1) (name ++ rest)) ((==_iff (mem p) b).1 h.0)
    ∙ starts_at-short mem (p + 1) name rest h.1
    ∙ ap (λ q. starts_at mem q rest) {x = p + 1 + length name} {y = p + suc (length name)}
        (omega arith)
