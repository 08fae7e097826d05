-- ===== src/Websocket/Channels/Clients.antt =====
-- The clients of a channel: what a message is to each of them, and which are ready for it.
use mathlib.Core.Bool.{true≢false}
use nginx_comment.Common.{
  ◌≡◌, ◌≢◌, refl, sym, ap, ◌∙◌, Bool, true, false, ◌==◌, ==_ne, List, [], ◌∷◌, if◌then◌else◌,
  if_false, ◌⊎◌, inl, inr, take, Bytes, Ptr,
}
use nginx_comment.Connection.{Answer}
use nginx_comment.Connection.Send.{moved}
use nginx_comment.Queue.Ring.{Out}
use nginx_comment.Websocket.Channels.{Worker}
use nginx_comment.Websocket.Channels.Round.{Fate, whole, short, lost, fate, survives, Effect}

abbrev pub took : Fate → Bool
took whole = true
took short = false
took lost = false

module _ (answers : Ptr → Answer) (bytes : Bytes) where
  -- The client takes the whole message.
  abbrev pub takes_all : Ptr → Bool
  takes_all p = took (fate (answers p) bytes)

  -- What a client is sent in a walk over a list of clients.
  abbrev pub received : List Ptr → Ptr → Bytes
  received [] p = []
  received (x ∷ xs) p = if p == x then take (moved ((answers x).last)) bytes else received xs p

  -- No connection is closed by the message.
  abbrev pub AllSurvive : List Ptr → Type 0
  AllSurvive [] = Unit
  AllSurvive (x ∷ xs) = (survives (fate (answers x) bytes) ≡ true) × AllSurvive xs

  pub Out-received : (p : Ptr) (xs : List Ptr) → Out p xs → received xs p ≡ []
  Out-received p [] o = refl
  Out-received p (x ∷ xs) o = if_false _ (==_ne p x o.0) ∙ Out-received p xs o.1

-- The clients of a channel: not freed, and not late.
abbrev pub AllReady : Worker → List Ptr → Type 0
AllReady w [] = Unit
AllReady w (x ∷ xs) =
    (((w.client x).alive ≡ true) × ((w.client x).c.wev_timedout ≡ false)) × AllReady w xs

pub AllReady-kept :
    (w w' : Worker) (p : Ptr) (xs : List Ptr)
    → ((q : Ptr) → q ≢ p → w'.client q ≡ w.client q)
    → Out p xs
    → AllReady w xs
    → AllReady w' xs
AllReady-kept w w' p [] e o h = tt
AllReady-kept w w' p (x ∷ xs) e o h =
    let same = e x (λ k. o.0 (sym k)) in
    (
      (ap (λ k. k.alive) same ∙ h.0.0, ap (λ k. k.c.wev_timedout) same ∙ h.0.1),
      AllReady-kept w w' p xs e o.1 h.1,
    )

-- A client that is there and late as it was before.
abbrev pub IsAs : Worker → Worker → Ptr → Type 0
IsAs w' w p =
    ((w'.client p).alive ≡ (w.client p).alive)
    × ((w'.client p).c.wev_timedout ≡ (w.client p).c.wev_timedout)

pub same_by :
    {got : Bytes} (w w' : Worker) (x p : Ptr) (f : Fate)
    → Effect f got x w w'
    → survives f ≡ true
    → (p ≡ x) ⊎ (p ≢ x)
    → IsAs w' w p
same_by w w' x p whole e k (inl i) = rw i (e.alive, e.timely)
same_by w w' x p short e k (inl i) = rw i (e.alive, e.timely)
same_by w w' x p lost e k (inl i) = absurd (true≢false (sym k))
same_by w w' x p f e k (inr n) =
    (ap (λ k. k.alive) (e.others p n), ap (λ k. k.c.wev_timedout) (e.others p n))
