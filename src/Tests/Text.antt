-- ===== src/Tests/Text.antt =====
-- A number with a width, and one for which there is too little room.
use nginx_comment.Common.{◌≡◌, refl, codes}
use nginx_comment.Text.{decimal_digits, hex_digits, number_text, sprintf_num}

padded : sprintf_num 24 2026 b'0' 0 8 ≡ codes "00002026"
unfolding sprintf_num number_text decimal_digits
padded = refl

hexadecimal : sprintf_num 24 0xbeef b' ' 2 6 ≡ codes "  BEEF"
unfolding sprintf_num number_text hex_digits
hexadecimal = refl
