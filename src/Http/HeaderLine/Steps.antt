-- ===== src/Http/HeaderLine/Steps.antt =====
-- What every round of the header line's switch keeps to, and the numbers of the states.
use nginx_comment.Common.{suc, ◌≤◌, ◌≡◌, refl, ap, arith, zero, Bool, Mem, Ptr}
use nginx_comment.Common.Scan.{next, Advances}
use nginx_comment.Http.HeaderLine.{
  HeaderState, start, other, succeeding, state_at, index_of, Machine, step_in, step,
}

pub state_at-index_of : (s : HeaderState) → state_at (index_of s) ≡ s
unfolding state_at index_of
state_at-index_of (other zero) = refl
state_at-index_of (other (suc k)) = ap succeeding (state_at-index_of (other k))
state_at-index_of start = refl
state_at-index_of _ = refl

step_in_advances :
    (s : HeaderState) (u : Bool) (mem : Mem) (m m' : Machine) (p q : Ptr)
    → step_in s u mem m p ≡ next m' q
    → p ≤ q
unfolding step_in
step_in_advances start u mem m m' p q e = ground arith
step_in_advances _ u mem m m' p q e = ground arith

pub step_advances : (u : Bool) (mem : Mem) → Advances (step u mem)
step_advances u mem m m' p q = step_in_advances m.state u mem m m' p q
