-- ===== src/Tests/Pool.antt =====
-- A pool of 1024 bytes at address 4096 that gives out two regions and one outside of its block.
use nginx_comment.Common.{ℕ, ◌≡◌, refl, true, false, none, some, [], ◌∷◌, inr, arith}
use nginx_comment.Pool.{
  Pool, Sys, init_pool, create_pool, small_loop, start, align_ptr, palloc_small, palloc_large,
  keep_large, allocate, destroy_pool,
}
use nginx_comment.Pool.Regions.{Apart, All, Pairwise}
use nginx_comment.Pool.Valid.{IsValid, Taken, Granted}
use nginx_comment.Pool.Grants.{IsFreshSys, allocate-Granted}
use nginx_comment.Pool.Balance.{count}
use nginx_comment.Pool.Runs.{Run, begun, granted, IsCreated, run_lem, destroy_pool-count}
use nginx_comment.Pool.Overrun.{palloc-overruns}

abbrev pub no_memory : Sys
no_memory = record { memalign = none; malloc = none }

abbrev pub block : Sys
block = record { memalign = some 4096; malloc = none }

abbrev pub outside : Sys
outside = record { memalign = none; malloc = some 8192 }

abbrev pub p0 : Pool
p0 = init_pool 4096 1024 (7 ∷ [])

abbrev p1 : Pool
p1 = (allocate false no_memory 13 p0).1

abbrev p2 : Pool
p2 = (allocate true no_memory 100 p1).1

abbrev p3 : Pool
p3 = (allocate true outside 2048 p2).1

pub block-IsCreated : IsCreated block 1024
block-IsCreated = record {
  large_enough = omega arith;
  size_aligned = omega arith;
  promised = λ a e. ground arith;
}

pub created : create_pool block 1024 (7 ∷ []) ≡ some p0
unfolding create_pool
created = refl

pub no_memory-IsFreshSys : (size : ℕ) (p : Pool) → IsFreshSys no_memory size p
no_memory-IsFreshSys size p = record {
  block = λ a e. absurd (cc);
  large = λ a e. absurd (cc);
  both = λ a b e f. absurd (cc);
}

outside-IsFreshSys : IsFreshSys outside 2048 p2
unfolding init_pool allocate palloc_small small_loop start align_ptr
outside-IsFreshSys = record {
  block = λ a e. absurd (cc);
  large = λ a e.
      let same : 8192 ≡ a = cc in
      (omega arith, omega arith, record { from_blocks = (inr (omega arith), tt); from_large = tt });
  both = λ a b e f. absurd (cc);
}

run : Run p0 ((8192, 10240) ∷ (4176, 4276) ∷ (4160, 4173) ∷ []) p3
unfolding init_pool allocate palloc_small palloc_large keep_large small_loop start align_ptr
run =
    granted
      (granted (granted begun false no_memory 13 4160 p1 (no_memory-IsFreshSys 13 p0) refl) true
        no_memory 100 4176 p2 (no_memory-IsFreshSys 100 p1) refl)
      true outside 2048 8192 p3 outside-IsFreshSys refl

first_run : Run p0 ((4160, 4173) ∷ []) p1
unfolding init_pool allocate palloc_small small_loop start
first_run = granted begun false no_memory 13 4160 p1 (no_memory-IsFreshSys 13 p0) refl

p1-IsValid : IsValid p1
p1-IsValid = (run_lem block 1024 (7 ∷ []) block-IsCreated created first_run).0

second : (allocate true no_memory 100 p1).0 ≡ some 4176
unfolding init_pool allocate palloc_small small_loop start align_ptr
second = refl

allocate-Granted_example : Granted true 100 p1 4176 p2
allocate-Granted_example =
    allocate-Granted true no_memory 100 p1 p1-IsValid (no_memory-IsFreshSys 100 p1) second

run_lem_example :
    IsValid p3
    × All (Taken p3) ((8192, 10240) ∷ (4176, 4276) ∷ (4160, 4173) ∷ [])
    × Pairwise Apart ((8192, 10240) ∷ (4176, 4276) ∷ (4160, 4173) ∷ [])
run_lem_example = run_lem block 1024 (7 ∷ []) block-IsCreated created run

destroy_pool-count_example : count 7 (destroy_pool p3) ≡ count 7 (7 ∷ [])
destroy_pool-count_example = destroy_pool-count block 1024 (7 ∷ []) block-IsCreated created run 7

palloc-overruns_example :
    (allocate true no_memory 100 (allocate false no_memory 1953 (init_pool 4096 2018 [])).1).0
    ≡ some 6120
palloc-overruns_example =
    palloc-overruns 4096 1953 100 [] (omega arith) (omega arith) (omega arith) (omega arith)
      no_memory no_memory (omega arith)
