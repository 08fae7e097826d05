-- ===== src/Http/Response/Outcome.antt =====
-- How the writer ends: with a response on its way, sent as a whole, refused, or with the connection
-- closed.
use mathlib.Core.Bool.{true≢false}
use nginx_comment.Common.{
  ℕ, zero, suc, ◌<◌, ◌≡◌, ◌⊎◌, refl, sym, ap, ◌∙◌, Bool, true, false, ◌&&◌, ◌||◌, Option, some,
  List, [], ◌∷◌, ◌++◌, ◌==◌, leb, Bool-cases, if_true, if_false, inl, inr, length, take, drop,
  Bytes,
}
use nginx_comment.Connection.{
  Sys, taken, unavailable, broken, Answer, SendResult, Connection, unix_send, wanting,
  close_connection,
}
use nginx_comment.Connection.Send.{result_of, moved, send_lem}
use nginx_comment.Http.Response.{
  error, done, status, Server, free_request, close_request, forbidden, finalize_request,
  wait_for_write, after_send, websocket_writer,
}

-- The request is not freed and the connection neither closed nor passed on.
abbrev pub IsLive : Server → Type 0
IsLive s = (s.alive ≡ true) × (s.c.is_open ≡ true) × (s.upgraded ≡ false)

-- A response `all` is on its way: what was taken and what is pending is the response.
abbrev pub IsServing : Bytes → Server → Type 0
IsServing all s =
    (s.c.wire ++ s.pending ≡ all) × (0 < length (s.pending)) × (s.r_error ≡ false) × IsLive s

abbrev pub IsRefusing : Server → Type 0
IsRefusing s = (s.r_error ≡ true) × IsLive s

abbrev pub IsClosed : Server → Type 0
IsClosed s = (s.c.is_open ≡ false) × (s.alive ≡ false) × (s.upgraded ≡ false)

-- The whole response was taken, the request is freed and the connection passed on.
abbrev pub IsUpgraded : Bytes → Server → Type 0
IsUpgraded all s = (s.c.wire ≡ all) × (s.alive ≡ false) × (s.c.is_open ≡ true) × (s.upgraded ≡ true)

pub data Outcome (all : Bytes) (s : Server) : Type 0 where
  serving : IsServing all s → Outcome all s
  upgraded : IsUpgraded all s → Outcome all s
  refusing : IsRefusing s → Outcome all s
  closed : IsClosed s → Outcome all s

abbrev pub is_fine : Sys → Bool
is_fine (taken n) = true
is_fine unavailable = true
is_fine broken = false

-- A round in which neither `send` nor `ngx_handle_write_event` fails.
abbrev pub is_settled : Answer → Bool
is_settled a = is_fine (a.last) && a.rearmed

abbrev pub settles : List Answer → Bool
settles [] = false
settles (a ∷ later) = is_settled a || settles later

-- What a send leaves alone.
abbrev pub Kept : Server → Server → Type 0
Kept s t =
    (t.pending ≡ s.pending)
    × (t.r_error ≡ s.r_error)
    × (t.alive ≡ s.alive)
    × (t.c.is_open ≡ s.c.is_open)
    × (t.upgraded ≡ s.upgraded)
    × (t.c.close ≡ s.c.close)
    × (t.c.wev_timedout ≡ s.c.wev_timedout)
    × (t.c.error ≡ s.c.error)

-- A send of the pending bytes.
abbrev pub sending : Server → SendResult × Connection → SendResult × Server
sending s (r, c) = (r, record s { c = c })

pub unix_send_lem :
    (i : ℕ) (last : Sys) (bytes : Bytes) (s : Server)
    → (t : Server) × (sending s (unix_send i last bytes (s.c)) ≡ (result_of last, t))
      × Kept s t
      × (t.c.wire ≡ s.c.wire ++ take (moved last) bytes)
unix_send_lem i last bytes s =
    let (d, e, w, o, c, v, f) = send_lem i last bytes (s.c) in
    (record s { c = d }, ap (sending s) e, (refl, refl, refl, o, refl, c, v, f), w)

-- A refusal under way, or its end.
abbrev pub IsRefused : Server → Type 0
IsRefused s = IsRefusing s ⊎ IsClosed s

-- A computation that ends well.
abbrev pub Ends : (Server → Type 0) → Option Server → Type 0
Ends P o = (s : Server) × (o ≡ some s) × P s

pub rewritten : {P : Server → Type 0} {o o' : Option Server} → o ≡ o' → Ends P o' → Ends P o
rewritten e (s, k, p) = (s, e ∙ k, p)

-- The ends that close.
pub error-IsClosed : (s : Server) → s.upgraded ≡ false → IsClosed (close_request error s)
unfolding close_request free_request close_connection
error-IsClosed s u = elim (Bool-cases (s.alive)) [
  | inl e ↦ rw e (refl, refl, u)
  | inr e ↦ rw e (refl, refl, u)
]

closing : (s : Server) → s.upgraded ≡ false → Ends IsRefused (some (close_request error s))
closing s u = (close_request error s, refl, inr (error-IsClosed s u))

closing_done : (s : Server) → s.upgraded ≡ false → Ends IsRefused (some (close_request done s))
unfolding close_request
closing_done s u = closing s u

-- What follows a round: the round was settled, or the writer it goes on with ends well.
abbrev pub Next : (Server → Option Server) → Bool → Type 0
Next writer settled = (settled ≡ true) ⊎ ((s : Server) → IsRefusing s → Ends IsRefused (writer s))

module _ (writer : Server → Option Server) where
  pub finalize-IsRefused :
      (n : ℕ) (s : Server)
      → ((t : Server) → IsRefusing t → Ends IsRefused (writer t))
      → IsLive s
      → Ends IsRefused (finalize_request writer (status n) s)
  unfolding finalize_request close_request
  finalize-IsRefused n s next (a, o, u) =
      elim (Bool-cases ((n == 408) || (n == 499) || s.c.error)) [
        | inl e ↦ rewritten (if_true _ e) (closing s u)
        | inr e ↦ elim (Bool-cases (leb 300 n)) [
          | inl f ↦
              rewritten (if_false _ e ∙ if_true _ f)
                (next (record s { r_error = true; pending = forbidden }) (refl, (a, o, u)))
          | inr f ↦ rewritten (if_false _ e ∙ if_false _ f) (closing s u)
        ]
      ]

  pub finalize_done :
      (s : Server) → s.upgraded ≡ false → Ends IsRefused (finalize_request writer done s)
  unfolding finalize_request
  finalize_done s u = elim (Bool-cases (s.c.error)) [
    | inl e ↦ rewritten (ap (λ c. some (close_request c s)) (if_true _ e)) (closing s u)
    | inr e ↦ rewritten (ap (λ c. some (close_request c s)) (if_false _ e)) (closing_done s u)
  ]

  pub finalize_408 :
      (s : Server) → s.upgraded ≡ false → Ends IsRefused (finalize_request writer (status 408) s)
  unfolding finalize_request
  finalize_408 s u = closing s u

  pub wait-IsRefused :
      (rearmed : Bool) (s : Server)
      → Next writer rearmed
      → IsRefusing s
      → Ends IsRefused (wait_for_write writer rearmed s)
  unfolding wait_for_write
  wait-IsRefused true s next h = (record s { c = wanting (s.c) }, refl, inl h)
  wait-IsRefused false s (inl e) h = absurd (true≢false (sym e))
  wait-IsRefused false s (inr next) h =
      finalize-IsRefused 500 (record s { c = wanting (s.c) }) next h.1

  after_send-IsRefused :
      (last : Sys) (rearmed : Bool) (s : Server)
      → Next writer (is_fine last && rearmed)
      → IsRefusing s
      → Ends IsRefused (after_send writer rearmed (result_of last) s)
  unfolding after_send finalize_request
  after_send-IsRefused (taken zero) rearmed s next h = closing s h.1.2
  after_send-IsRefused (taken (suc n)) rearmed s next h =
      let s1 = record s { pending = drop (suc n) (s.pending) } in
      elim (Bool-cases (leb (length (s.pending)) (suc n))) [
        | inl e ↦ rewritten (if_true _ e ∙ ap some (if_true _ h.0)) (closing_done s1 h.1.2)
        | inr e ↦ rewritten (if_false _ e) (wait-IsRefused rearmed s1 next h)
      ]
  after_send-IsRefused unavailable rearmed s next h = wait-IsRefused rearmed s next h
  after_send-IsRefused broken rearmed s (inl e) h = absurd (true≢false (sym e))
  after_send-IsRefused broken rearmed s (inr next) h = finalize-IsRefused 500 s next h.1

-- The writer on a refusal, with an answer that is no failure to come.
pub writer-IsRefused :
    (later : List Answer) (s : Server)
    → settles later ≡ true
    → IsRefusing s
    → Ends IsRefused (websocket_writer later s)
unfolding websocket_writer
writer-IsRefused [] s g h = absurd (true≢false (sym g))
writer-IsRefused (a ∷ later) s g h =
    let (t, e, k, w) = unix_send_lem (a.interruptions) (a.last) (s.pending) s in
    let writer = websocket_writer later in
    let next : Next writer (is_settled a) = elim (Bool-cases (is_settled a)) [
      | inl f ↦ inl f
      | inr f ↦ inr (λ u r. writer-IsRefused later u (sym (ap (λ b. b || settles later) f) ∙ g) r)
    ] in
    let h' : IsRefusing t = (k.1 ∙ h.0, (k.2 ∙ h.1.0, k.3 ∙ h.1.1, k.4 ∙ h.1.2)) in
    elim (Bool-cases (s.c.wev_timedout)) [
      | inl o ↦
          rewritten (if_true _ o)
            (finalize_408 writer (record s { c = record s.c { timedout = true } }) h.1.2)
      | inr o ↦ elim (Bool-cases (length (s.pending) == 0)) [
        | inl z ↦
            rewritten
              (if_false _ o ∙ if_true _ z ∙ ap (λ c. finalize_request writer c s) (if_true _ h.0))
              (finalize_done writer s h.1.2)
        | inr z ↦
            rewritten
              (if_false _ o ∙ if_false _ z ∙ ap (λ p. after_send writer (a.rearmed) (p.0) (p.1)) e)
              (after_send-IsRefused writer (a.last) (a.rearmed) t next h')
      ]
    ]
