-- ===== src/Tests/Times.antt =====
-- The last day of February 2000, and the first second that there is.
use nginx_comment.Common.{◌≡◌, refl}
use nginx_comment.Times.{pos, negsuc, march_date, month_of, day_of_month, civil, truncated, gmtime}
use nginx_comment.Times.Date.{IsTime, gmtime-IsTime}

gmtime-IsTime_example : IsTime (gmtime (pos 951782400)) 11016 0
gmtime-IsTime_example = gmtime-IsTime (pos 951782400)

leap_day :
    gmtime (pos 951782400)
    ≡ record { sec = 0; min = 0; hour = 0; mday = 29; mon = 2; year = 2000; wday = 2 }
unfolding gmtime truncated civil march_date month_of day_of_month
leap_day = refl

before_the_epoch :
    gmtime (negsuc 4)
    ≡ record { sec = 0; min = 0; hour = 0; mday = 1; mon = 1; year = 1970; wday = 4 }
unfolding gmtime truncated civil march_date month_of day_of_month
before_the_epoch = refl
