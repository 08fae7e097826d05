-- ===== src/Tests/Table.antt =====
-- A table of one connection, which becomes reusable and is taken from its client for the next one.
use nginx_comment.Common.{ℕ, ◌≡◌, refl, true, none, some, ◌||◌, arith}
use nginx_comment.Connection.Table.{
  wait_request_handler, set_read_handler, Table, new_table, link_slots, reusable_connection,
  free_connection, close_connection, take_connection, drained, drain_connections, drain_loop,
  get_connection, stale, is_none,
}
use nginx_comment.Connection.Table.Drain.{
  HasFree, HasReusable, Served, KeepsFree, get_connection-Served,
}
use nginx_comment.Connection.Table.Stale.{
  Uses, same, taken, shut, kept, handled, is_odd, stale-Uses,
}
use nginx_comment.Connection.Table.Sound.{Uses-HasFree}

abbrev empty : Table
empty = new_table 1

abbrev full : Table
full = take_connection 7 0 empty

abbrev reused : Table
reused = set_read_handler wait_request_handler 0 (reusable_connection 0 true full)

abbrev next_one : Table
next_one = take_connection 9 0 (close_connection 0 reused)

one_free : empty.free ≡ some 0
unfolding new_table link_slots
one_free = refl

freed : (close_connection 0 reused).free ≡ some 0
unfolding close_connection reusable_connection take_connection free_connection
freed = refl

reused-Uses : Uses 0 empty 1 reused
reused-Uses = handled wait_request_handler 0 (kept 0 true (taken 7 same one_free))

reused-HasFree : HasFree 0 reused
reused-HasFree = Uses-HasFree 0 1 (omega arith) (omega arith) reused-Uses

reused-HasReusable : reused.free ≡ none → HasReusable reused
unfolding reusable_connection take_connection new_table link_slots
reused-HasReusable e = record { last_one = 0; fd = 7; is_last = refl; is_open = refl; waits = refl }

abbrev no_others : ℕ → Table → Table
no_others c t = t

no_others-KeepsFree : KeepsFree no_others
no_others-KeepsFree n c t h = h

-- The next client gets the same connection.
second_client : (get_connection no_others 9 reused).0 ≡ some 0
unfolding get_connection drain_connections drain_loop close_connection reusable_connection
    take_connection free_connection new_table link_slots
second_client = refl

Uses-HasFree_example : HasFree 0 next_one
Uses-HasFree_example =
    Uses-HasFree 0 1 (omega arith) (omega arith) (taken 9 (shut 0 reused-Uses) freed)

get_connection-Served_example :
    Served 9 (drained no_others reused.free reused) (get_connection no_others 9 reused)
get_connection-Served_example =
    get_connection-Served no_others no_others-KeepsFree 9 reused reused-HasFree reused-HasReusable

stale-Uses_example :
    stale 0 (reused.slot 0).rev_instance next_one ≡ is_none (next_one.slot 0).fd || is_odd 1
stale-Uses_example = stale-Uses 0 reused (taken 9 (shut 0 same) freed)
