-- ===== src/Pool/Overrun.antt =====
-- A pool whose size is no multiple of the alignment, as `NGX_REQUEST_POOL_SIZE` of
-- demo/src/http/ngx_http_request.h.
use nginx_comment.Common.{
  ℕ, ◌+◌, ◌-◌, ◌%◌, ◌≤◌, ◌<◌, ◌≡◌, ◌∙◌, refl, ap, true, false, some, List, [], ◌∷◌, leb, if_true,
  Option, Bool, ◌++◌, take, drop, arith, Ptr,
}
use nginx_comment.Pool.{Block, Pool, Sys, u64, start, init_pool, small_loop, palloc_small, allocate}
use nginx_comment.Pool.Walk.{align_ptr_lem}

-- `NGX_REQUEST_POOL_SIZE`
abbrev pub request_pool_size : ℕ
request_pool_size = 2018

-- A block that seems to have room.
palloc_found :
    (align : Bool) (sys : Sys) (size : ℕ) (p : Pool) {m : Ptr} {changed : List Block}
    → leb size p.max ≡ true
    → small_loop align size (drop p.current p.blocks) ≡ some (m, changed)
    → allocate align sys size p ≡ (some m, record p { blocks = take p.current p.blocks ++ changed })
unfolding allocate palloc_small
palloc_found align sys size p small e = if_true _ small ∙ rw (e, palloc_small) refl

small_loop_here :
    (align : Bool) (size : ℕ) (b : Block)
    → leb size ((b.end + u64 - start align b) % u64) ≡ true
    → small_loop align size (b ∷ [])
      ≡ some (start align b, record b { last = start align b + size } ∷ [])
unfolding small_loop start
small_loop_here align size b e = if_true _ e

module _ (a n size : ℕ) (live : List Ptr) (even : a % 16 ≡ 0) (bounded : a + 2048 < u64)
    (last : 1953 ≤ n) (most : n ≤ 1954) where
  abbrev head : Block
  head = record { base = a; last = a + 64; end = a + 2018; failed = 0 }

  abbrev full : Block
  full = record head { last = a + 64 + n }

  first :
      (sys : Sys)
      → allocate false sys n (init_pool a request_pool_size live)
        ≡ (some (a + 64), record (init_pool a request_pool_size live) { blocks = full ∷ [] })
  unfolding init_pool start
  first sys =
      palloc_found false sys n (init_pool a request_pool_size live) (ground arith)
        (small_loop_here false n head (ground arith))

  start-full : start true full ≡ a + 2024
  unfolding start
  start-full = let (l, u, d) = align_ptr_lem (a + 64 + n) (omega arith) in omega (arith, l, u, d)

  -- The pool of a request has 2018 bytes. Where `ngx_pnalloc` has given out 1953 or 1954 bytes of it,
  -- as for the name of a header, the next call of `ngx_palloc`, for any small size, returns an address
  -- 6 bytes behind the end of the pool's memory, since the difference to the end wraps around.
  pub palloc-overruns :
      (sys sys' : Sys)
      → size ≤ 1954
      → (allocate true sys' size (allocate false sys n (init_pool a request_pool_size live)).1).0
        ≡ some (a + request_pool_size + 6)
  unfolding init_pool
  palloc-overruns sys sys' h =
      let p1 = record (init_pool a request_pool_size live) { blocks = full ∷ [] } in
      ap (λ (r : Option Ptr × Pool). (allocate true sys' size r.1).0) (first sys)
      ∙ ap (λ (r : Option Ptr × Pool). r.0)
          (palloc_found true sys' size p1 (ground arith)
            (small_loop_here true size full (ground (arith, start-full))))
      ∙ ap some (start-full ∙ omega arith)
