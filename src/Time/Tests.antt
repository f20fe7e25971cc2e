-- ===== src/Time/Tests.antt =====
-- Inputs at which the theorems about `convert_time` are applied.
use escp.Base.{◌≡◌, refl, [], codes, true, false}
use escp.Str.Decimal.{to_string}
use escp.Time.{convert_time, pad2, coarse, precise}
use escp.Time.Clock.{clock, clock-convert_time}

two_hours_example : clock 0 (convert_time 7384 [] [] false) 0 ≡ 7384
two_hours_example = clock-convert_time 7384 [] []

five_seconds : convert_time 5 (codes "0.123") (codes "0.12") true ≡ codes "5.23s"
unfolding convert_time precise to_string
five_seconds = refl

one_hour : convert_time 3661 (codes "0.123") (codes "0.12") true ≡ codes "01:01:01.0.12"
unfolding convert_time precise pad2 to_string
one_hour = refl

two_hours : convert_time 7384 [] [] false ≡ codes "02:03:04"
unfolding convert_time coarse pad2 to_string
two_hours = refl
