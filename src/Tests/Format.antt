-- ===== src/Tests/Format.antt =====
-- The format "%5d of %s%%" with a number and a text, and one that ends in a `%`.
use nginx_comment.Common.{
  ◌-◌, ◌≡◌, ◌≤◌, ◌⊎◌, refl, List, [], ◌∷◌, ◌++◌, get_or, length, arith, Bytes, Mem, codes,
}
use nginx_comment.Text.{sprintf_num, number_text, decimal_digits}
use nginx_comment.Text.Format.{
  Arg, signed, ptr, negsuc, written, past_end, mistyped, vslprintf, print_loop, round, directive,
  number, print_signed, read_flags, read_width,
}
use nginx_comment.Text.Format.Rooms.{vslprintf-fits, vslprintf-cut}
use nginx_comment.Text.Format.Plain.{vslprintf-past_end}

-- "ten" and its end at address 8
abbrev mem : Mem
mem p = get_or (codes "ten") (p - 8) 0

abbrev fmt : Bytes
fmt = codes "%5d of %s%%"

abbrev args : List Arg
args = signed (negsuc 2) ∷ ptr 8 ∷ []

printed : vslprintf mem 20 fmt args ≡ written (codes "-    3 of ten%")
unfolding vslprintf print_loop round directive number print_signed read_flags read_width sprintf_num
    number_text decimal_digits
printed = refl

vslprintf-cut_example : vslprintf mem 8 fmt args ≡ written (codes "-    3 o")
vslprintf-cut_example = vslprintf-cut mem fmt args 8 20 (omega arith) printed

vslprintf-fits_example :
    ((out : Bytes) × (vslprintf mem 3 fmt args ≡ written out) × (length out ≤ 3))
    ⊎ ((vslprintf mem 3 fmt args ≡ past_end) ⊎ (vslprintf mem 3 fmt args ≡ mistyped))
vslprintf-fits_example = vslprintf-fits mem fmt args 3

vslprintf-past_end_example : vslprintf mem 8 (codes "100" ++ b'%' ∷ []) [] ≡ past_end
vslprintf-past_end_example = vslprintf-past_end mem 8 (codes "100") [] (omega arith) (omega arith)
