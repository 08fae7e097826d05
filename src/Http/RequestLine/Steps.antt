-- ===== src/Http/RequestLine/Steps.antt =====
-- What every round of the request line's switch keeps to, and the numbers of the states.
use nginx_comment.Common.{zero, suc, ◌≤◌, ◌≡◌, refl, ap, arith, Mem, Ptr}
use nginx_comment.Common.Scan.{next, Advances}
use nginx_comment.Http.Request.{Request}
use nginx_comment.Http.RequestLine.{
  LineState, start, other, succeeding, state_at, index_of, Machine, step_in, step,
}

pub state_at-index_of : (s : LineState) → state_at (index_of s) ≡ s
unfolding state_at index_of
state_at-index_of (other zero) = refl
state_at-index_of (other (suc k)) = ap succeeding (state_at-index_of (other k))
state_at-index_of start = refl
state_at-index_of _ = refl

step_in_advances :
    (s : LineState) (mem : Mem) (r : Request) (p q : Ptr) (m : Machine)
    → step_in s mem r p ≡ next m q
    → p ≤ q
unfolding step_in
step_in_advances start mem r p q m e = ground arith
step_in_advances _ mem r p q m e = ground arith

pub step_advances : (mem : Mem) → Advances (step mem)
step_advances mem m m' p q = step_in_advances m.state mem m.request p q m'
