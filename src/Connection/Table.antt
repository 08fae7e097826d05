-- ===== src/Connection/Table.antt =====
-- demo/src/core/ngx_connection.c: the table of connections with its list of free ones, with the part of
-- demo/src/event/ngx_event.c that makes it and the test for stale events of
-- demo/src/event/ngx_epoll.c.
pub mod Drain
pub mod Free
pub mod Sound
pub mod Stale
pub mod Steps
pub mod Stuck
use Prim.Native.Nat.{min, max}
use nginx_comment.Common.{
  ℕ, zero, suc, ◌+◌, ◌-◌, ◌/◌, ◌%◌, ◌^◌, Bool, true, false, not, ◌||◌, Option, none, some, List, [],
  ◌∷◌, ◌==◌, if◌then◌else◌,
}

-- The handler of a read event, `c->read->handler`: those of a connection that waits for a request, of one
-- that is answered, and of a websocket; and all others, with NULL.
pub data ReadHandler : Type 0 where
  wait_request_handler empty_handler wait_frame_handler other_handler : ReadHandler

-- The fields of `ngx_connection_t` and of its two events; `fd` is none for -1, `link` is `data` while the
-- connection is free, none for NULL. `posted`: one of the events is posted; `active` and `closed` are
-- written for both events at once. The addresses, the log and the queue's links are left out.
pub record Slot : Type 0 where
  pub fd : Option ℕ
  pub link : Option ℕ
  pub rev_instance : Bool
  pub wev_instance : Bool
  pub active : Bool
  pub posted : Bool
  pub closed : Bool
  pub reusable : Bool
  pub close : Bool
  pub shared : Bool
  pub read_handler : ReadHandler

-- `cycle->connections` by index, `free_connections`, `free_connection_n`, and the queue of reusable
-- connections, the head first, with `reusable_connections_n`.
pub record Table : Type 0 where
  pub slot : ℕ → Slot
  pub free : Option ℕ
  pub free_n : ℕ
  pub queue : List ℕ
  pub reusable_n : ℕ

abbrev pub put_slot : ℕ → Slot → (ℕ → Slot) → ℕ → Slot
put_slot c s slot d = if d == c then s else slot d

-- A connection and its events as `ngx_event_process_init` sets them. The other fields are what `ngx_alloc`
-- returned, and `ngx_get_connection` sets them before any test; here they are false.
abbrev pub unused : Option ℕ → Slot
unused next = record {
  fd = none;
  link = next;
  rev_instance = true;
  wev_instance = false;
  active = false;
  posted = false;
  closed = true;
  reusable = false;
  close = false;
  shared = false;
  read_handler = other_handler;
}

-- The loop over `i`.
unfoldable pub link_slots : ℕ → Option ℕ → (ℕ → Slot) → Option ℕ × (ℕ → Slot)
link_slots zero next slot = (next, slot)
link_slots (suc i) next slot = link_slots i (some i) (put_slot i (unused next) slot)

-- The table for `n` connections, of which the loop needs one at least.
unfoldable pub new_table : ℕ → Table
unfolding link_slots
new_table n =
    let (free, slot) = link_slots n none (λ _. unused none) in
    record { slot = slot; free = free; free_n = n; queue = []; reusable_n = 0 }

-- `ngx_queue_remove`, on a queue of distinct elements
abbrev pub without : ℕ → List ℕ → List ℕ
without c [] = []
without c (d ∷ ds) = if d == c then ds else d ∷ without c ds

-- `ngx_reusable_connection`
unfoldable pub reusable_connection : ℕ → Bool → Table → Table
reusable_connection c reusable t =
    let s = t.slot c in
    let queue = if s.reusable then without c t.queue else t.queue in
    let n = if s.reusable then (t.reusable_n + 2 ^ 64 - 1) % 2 ^ 64 else t.reusable_n in
    record t {
      slot = put_slot c (record s { reusable = reusable }) t.slot;
      queue = if reusable then c ∷ queue else queue;
      reusable_n = if reusable then (n + 1) % 2 ^ 64 else n;
    }

-- `ngx_free_connection`; `cycle->files` is never set, so what it guards is not done.
unfoldable pub free_connection : ℕ → Table → Table
free_connection c t = record t {
  slot = put_slot c (record (t.slot c) { link = t.free }) t.slot;
  free = some c;
  free_n = (t.free_n + 1) % 2 ^ 64;
}

-- What `ngx_close_connection` does to the events, before it calls `ngx_reusable_connection`.
abbrev pub without_events : Slot → Slot
without_events s = record s {
  active = if s.shared then s.active else false;
  posted = false;
  closed = true;
}

abbrev pub without_fd : ℕ → Table → Table
without_fd c t = record t { slot = put_slot c (record (t.slot c) { fd = none }) t.slot }

-- `ngx_close_connection`, by what the descriptor is. The timers of the events and the closing of the
-- socket are left out.
abbrev pub close_by : ℕ → Option ℕ → Table → Table
close_by c none t = t
close_by c (some fd) t = without_fd c (
    free_connection c (
      reusable_connection c false
        (record t { slot = put_slot c (without_events (t.slot c)) t.slot })))

unfoldable pub close_connection : ℕ → Table → Table
unfolding free_connection reusable_connection
close_connection c t = close_by c (t.slot c).fd t

-- `ngx_close_accepted_connection` of demo/src/event/ngx_event_accept.c; the pool is not in the table.
abbrev pub close_accepted_connection : ℕ → Table → Table
close_accepted_connection c t = without_fd c (free_connection c t)

-- The end of `ngx_get_connection`: the connection is cleared, and the instance turns over.
unfoldable pub take_connection : ℕ → ℕ → Table → Table
take_connection s c t =
    let old = t.slot c in
    record t {
      free = old.link;
      free_n = (t.free_n + 2 ^ 64 - 1) % 2 ^ 64;
      slot =
          put_slot c
            (record {
              fd = some s;
              link = none;
              rev_instance = not old.rev_instance;
              wev_instance = not old.rev_instance;
              active = false;
              posted = false;
              closed = false;
              reusable = false;
              close = false;
              shared = false;
              read_handler = other_handler;
            })
            t.slot;
    }

abbrev pub last_of : List ℕ → Option ℕ
last_of [] = none
last_of (c ∷ []) = some c
last_of (c ∷ (d ∷ cs)) = last_of (d ∷ cs)

abbrev pub mark_close : ℕ → Table → Table
mark_close c t = record t { slot = put_slot c (record (t.slot c) { close = true }) t.slot }

-- `c->read->handler(c->read)` for a connection by its handler: `ngx_http_wait_request_handler` closes a
-- connection that is marked, and `ngx_http_empty_handler` and `ngx_websocket_wait_frame_handler` do nothing.
-- What the others do, and the first where nothing is marked, is an argument.
abbrev pub handle_by : (ℕ → Table → Table) → ReadHandler → ℕ → Table → Table
handle_by others wait_request_handler c t =
    if (t.slot c).close then close_connection c t else others c t
handle_by others empty_handler c t = t
handle_by others wait_frame_handler c t = t
handle_by others other_handler c t = others c t

abbrev pub read_event : (ℕ → Table → Table) → ℕ → Table → Table
read_event others c t = handle_by others (t.slot c).read_handler c t

-- The loop of `ngx_drain_connections`
unfoldable pub drain_loop : (ℕ → Table → Table) → ℕ → Table → Table
drain_loop others zero t = t
drain_loop others (suc n) t = elim (last_of t.queue) [
  | none ↦ t
  | some c ↦ drain_loop others n (read_event others c (mark_close c t))
]

-- `ngx_drain_connections`
unfoldable pub drain_connections : (ℕ → Table → Table) → Table → Table
unfolding drain_loop
drain_connections others t = drain_loop others (max (min 32 (t.reusable_n / 8)) 1) t

abbrev pub take_free : ℕ → Option ℕ → Table → Option ℕ × Table
take_free s none t = (none, t)
take_free s (some c) t = (some c, take_connection s c t)

abbrev pub drained : (ℕ → Table → Table) → Option ℕ → Table → Table
drained others none t = drain_connections others t
drained others (some c) t = t

-- `ngx_get_connection`
unfoldable pub get_connection : (ℕ → Table → Table) → ℕ → Table → Option ℕ × Table
unfolding take_connection drain_connections
get_connection others s t = let t1 = drained others t.free t in take_free s t1.free t1

-- `c->read->handler = handler`
abbrev pub set_read_handler : ReadHandler → ℕ → Table → Table
set_read_handler handler c t = record t {
  slot = put_slot c (record (t.slot c) { read_handler = handler }) t.slot;
}

-- The test for a stale event in `ngx_epoll_process_events`, for an event of connection `c` that was
-- registered with `instance`.
abbrev pub is_none : Option ℕ → Bool
is_none none = true
is_none (some fd) = false

abbrev pub differs : Bool → Bool → Bool
differs true b = not b
differs false b = b

unfoldable pub stale : ℕ → Bool → Table → Bool
stale c instance_bit t = is_none (t.slot c).fd || differs (t.slot c).rev_instance instance_bit
