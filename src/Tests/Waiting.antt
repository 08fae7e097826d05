-- ===== src/Tests/Waiting.antt =====
-- The first bytes of a request, for a connection that has no buffer yet.
use nginx_comment.Common.{◌≡◌, true, false, none, [], ◌∷◌, inr, arith, codes}
use nginx_comment.Http.Reading.{received}
use nginx_comment.Http.Waiting.{Waiter, WaitSys, wait_request_handler}
use nginx_comment.Http.Waiting.Buffer.{IsWaiting, IsFreshWait, Outcome}
use nginx_comment.Http.Waiting.First.{wait_request_handler-Outcome}
use nginx_comment.Pool.{Pool, init_pool, allocate, palloc_small, small_loop, start, align_ptr}
use nginx_comment.Pool.Balance.{count, owned, starts, large_count}
use nginx_comment.Pool.Grants.{IsFreshSys}
use nginx_comment.Pool.Runs.{run_lem, begun}
use nginx_comment.Tests.Pool.{
  no_memory, outside, block, p0, block-IsCreated, created, no_memory-IsFreshSys,
}
use nginx_comment.Tests.Response.{opened}

abbrev waiter : Waiter
waiter = record {
  rev_timedout = false;
  rev_timer_set = false;
  buffer = none;
  pool = p0;
  mem = λ p. 0;
  c = opened;
}

abbrev sys : WaitSys
sys = record {
  buf = no_memory;
  bytes = outside;
  recv = received (codes "GET /");
  rearmed = true;
  created = true;
}

-- The pool that has given out the `ngx_buf_t`.
abbrev p1 : Pool
p1 = (allocate true no_memory 80 p0).1

outside-IsFreshSys : IsFreshSys outside 2048 p0
unfolding init_pool
outside-IsFreshSys = record {
  block = λ a e. absurd (cc);
  large = λ a e.
      let same : 8192 ≡ a = cc in
      (omega arith, omega arith, record { from_blocks = (inr (omega arith), tt); from_large = tt });
  both = λ a b e f. absurd (cc);
}

later-IsFreshSys : IsFreshSys outside 2048 p1
unfolding init_pool allocate palloc_small small_loop start align_ptr
later-IsFreshSys = record {
  block = λ a e. absurd (cc);
  large = λ a e.
      let same : 8192 ≡ a = cc in
      (omega arith, omega arith, record { from_blocks = (inr (omega arith), tt); from_large = tt });
  both = λ a b e f. absurd (cc);
}

sys-IsFreshWait : IsFreshWait 80 sys p0
sys-IsFreshWait = record {
  buf = no_memory-IsFreshSys 80 p0;
  only_bytes = outside-IsFreshSys;
  bytes = later-IsFreshSys;
}

waiter-IsWaiting : IsWaiting (7 ∷ []) waiter
unfolding init_pool owned starts large_count count
waiter-IsWaiting =
    (((run_lem block 1024 (7 ∷ []) block-IsCreated created begun).0, λ x. omega arith), tt)

wait_request_handler-Outcome_example : Outcome (7 ∷ []) sys (wait_request_handler 80 sys waiter)
wait_request_handler-Outcome_example =
    wait_request_handler-Outcome (7 ∷ []) 80 sys waiter waiter-IsWaiting sys-IsFreshWait
