-- ===== src/Http/Response/Serving.antt =====
-- A round of the writer on a response.
use mathlib.Core.Bool.{true≢false}
use mathlib.Core.List.{append_assoc, append-nil}
use nginx_comment.Common.{
  ℕ, zero, suc, ◌≡◌, refl, sym, ap, ◌∙◌, Bool, true, false, ◌&&◌, ◌||◌, Option, some, List, [], ◌∷◌,
  ◌++◌, leb, Bool-cases, if_true, if_false, ==_ne, ◌≤◌, inl, inr, arith, length, take, drop,
  take-append-drop, length-drop, Bytes,
}
use nginx_comment.Connection.{Sys, taken, unavailable, broken, Answer, wanting}
use nginx_comment.Http.Response.{
  ok, error, status, Server, free_request, close_request, finalize_request, wait_for_write,
  after_send, websocket_writer,
}
use nginx_comment.Connection.Send.{result_of, moved}
use nginx_comment.Http.Response.Outcome.{
  IsLive, IsServing, IsUpgraded, Outcome, serving, upgraded, refusing, closed, is_fine, is_settled,
  settles, unix_send_lem, IsRefused, Ends, rewritten, error-IsClosed, Next, finalize-IsRefused,
  finalize_408, writer-IsRefused,
}

refused-Outcome : (all : Bytes) (o : Option Server) → Ends IsRefused o → Ends (Outcome all) o
refused-Outcome all o (s, e, inl h) = (s, e, refusing h)
refused-Outcome all o (s, e, inr h) = (s, e, closed h)

length-drop_all : (n : ℕ) (bs : Bytes) → length bs ≤ n → drop n bs ≡ []
length-drop_all zero [] h = refl
length-drop_all (suc n) [] h = refl
length-drop_all zero (b ∷ bs) h = absurd (omega arith)
length-drop_all (suc n) (b ∷ bs) h = length-drop_all n bs (omega arith)

pub sent_whole :
    (all : Bytes) (n : ℕ) (w bs : Bytes) → w ++ bs ≡ all → length bs ≤ n → w ++ take n bs ≡ all
sent_whole all n w bs e h =
    ap (λ l. w ++ l)
      (sym (append-nil (take n bs))
        ∙ ap (λ l. take n bs ++ l) (sym (length-drop_all n bs h))
        ∙ take-append-drop n bs)
    ∙ e

pub moved_on :
    (all : Bytes) (n : ℕ) (w bs : Bytes) → w ++ bs ≡ all → (w ++ take n bs) ++ drop n bs ≡ all
moved_on all n w bs e =
    append_assoc w (take n bs) (drop n bs) ∙ ap (λ l. w ++ l) (take-append-drop n bs) ∙ e

-- A response that was taken as a whole.
pub whole-IsUpgraded :
    (all : Bytes) (s : Server)
    → s.c.wire ≡ all
    → IsLive s
    → IsUpgraded all (record (close_request ok s) { upgraded = true })
unfolding close_request free_request
whole-IsUpgraded all s e (a, o, u) = elim (Bool-cases (s.alive)) [
  | inl f ↦ rw f (e, refl, o, refl)
  | inr f ↦ absurd (true≢false (sym a ∙ f))
]

module _ (all : Bytes) (writer : Server → Option Server) where
  wait_lem :
      (rearmed : Bool) (s : Server)
      → Next writer rearmed
      → IsServing all s
      → Ends (Outcome all) (wait_for_write writer rearmed s)
  unfolding wait_for_write
  wait_lem true s next h = (record s { c = wanting (s.c) }, refl, serving h)
  wait_lem false s (inl e) h = absurd (true≢false (sym e))
  wait_lem false s (inr next) (w, l, r, h) =
      let t = record s { c = wanting (s.c) } in
      refused-Outcome all (finalize_request writer (status 500) t)
        (finalize-IsRefused writer 500 t next h)

  -- `s` is as the send left it, `w` what was taken before.
  after_send_lem :
      (last : Sys) (rearmed : Bool) (s : Server) (w : Bytes)
      → Next writer (is_fine last && rearmed)
      → s.c.wire ≡ w ++ take (moved last) (s.pending)
      → IsServing all (record s { c = record s.c { wire = w } })
      → Ends (Outcome all) (after_send writer rearmed (result_of last) s)
  unfolding after_send finalize_request
  after_send_lem (taken zero) rearmed s w next e (_, _, _, (_, _, u)) =
      (close_request error s, refl, closed (error-IsClosed s u))
  after_send_lem (taken (suc n)) rearmed s w next e (a, p, r, h) =
      let s1 = record s { pending = drop (suc n) (s.pending) } in
      elim (Bool-cases (leb (length (s.pending)) (suc n))) [
        | inl f ↦ rewritten (if_true _ f ∙ ap some (if_false _ r)) (
          record (close_request ok s1) { upgraded = true },
          refl,
          upgraded (
              whole-IsUpgraded all s1 (e ∙ sent_whole all (suc n) w (s.pending) a (ground arith))
                h),
        )
        | inr f ↦ rewritten (if_false _ f) (
            wait_lem rearmed s1 next (
              ap (λ l. l ++ drop (suc n) (s.pending)) e ∙ moved_on all (suc n) w (s.pending) a,
              rw (length-drop (suc n) (s.pending)) (ground arith),
              r,
              h,
            ))
      ]
  after_send_lem unavailable rearmed s w next e (a, p, r, h) =
      wait_lem rearmed s next (ap (λ l. l ++ s.pending) (e ∙ append-nil w) ∙ a, p, r, h)
  after_send_lem broken rearmed s w (inl e) f h = absurd (true≢false (sym e))
  after_send_lem broken rearmed s w (inr next) f (a, p, r, h) =
      refused-Outcome all (finalize_request writer (status 500) s)
        (finalize-IsRefused writer 500 s next h)

-- The writer of a response, some of it pending, ends when among its rounds there is one in which
-- neither the send nor the request for the next write event fails. Then what was taken and what is
-- pending still is the response; or all of it was taken, the request is freed and the connection, still
-- open, passed on; or the request is being refused; or it is freed and the connection closed.
pub websocket_writer-Outcome :
    (all : Bytes) (later : List Answer) (s : Server)
    → settles later ≡ true
    → IsServing all s
    → Ends (Outcome all) (websocket_writer later s)
unfolding websocket_writer
websocket_writer-Outcome all [] s g h = absurd (true≢false (sym g))
websocket_writer-Outcome all (a ∷ later) s g (b, p, r, h) =
    let (t, e, k, w) = unix_send_lem (a.interruptions) (a.last) (s.pending) s in
    let writer = websocket_writer later in
    let next : Next writer (is_settled a) = elim (Bool-cases (is_settled a)) [
      | inl f ↦ inl f
      | inr f ↦ inr (λ u v. writer-IsRefused later u (sym (ap (λ c. c || settles later) f) ∙ g) v)
    ] in
    let s1 = record s { c = record s.c { timedout = true } } in
    elim (Bool-cases (s.c.wev_timedout)) [
      | inl o ↦ rewritten (if_true _ o) (
          refused-Outcome all (finalize_request writer (status 408) s1)
            (finalize_408 writer s1 h.2))
      | inr o ↦
          rewritten
            (if_false _ o
              ∙ if_false _ (==_ne (length (s.pending)) 0 (omega arith))
              ∙ ap (λ q. after_send writer (a.rearmed) (q.0) (q.1)) e)
            (after_send_lem all writer (a.last) (a.rearmed) t (s.c.wire) next
              (w ∙ ap (λ l. s.c.wire ++ take (moved (a.last)) l) (sym k.0))
              (
                ap (λ l. s.c.wire ++ l) (k.0) ∙ b,
                rw (k.0) p,
                k.1 ∙ r,
                (k.2 ∙ h.0, k.3 ∙ h.1, k.4 ∙ h.2),
              ))
    ]
