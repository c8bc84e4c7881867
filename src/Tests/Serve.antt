-- ===== src/Tests/Serve.antt =====
-- Runs of the branch of `ReadBodyPart` (haarp/connectiontohttp2.cpp) that serves from the file, and
-- instances of the theorems about it.
use haarpcache.Base.{
  pos, pos_part, ◌+ℤ◌, ◌-ℤ◌, int_laws, parts_of_eq, ◌≡◌, refl, ap, true, false, [], ◌∷◌, arith,
}
use haarpcache.Intervals.{Interval}
use haarpcache.Intervals.Work.{get_range_work}
use haarpcache.Serve.{Reader, Look, open_hit, read_body_hit, last}
use haarpcache.Serve.Right.{Holds, IsServing, IsRightFrom, read_body_hit-IsRightFrom}
use haarpcache.Serve.Stuck.{IsBarren, read_body_hit-IsBarren}
use haarpcache.Serve.Open.{IsOpen, open_hit-IsOpen}
use haarpcache.Tests.Intervals.{first_block}
use haarpcache.Tests.Body.{test_origin, test_download-IsFaithful}

-- Bytes 5 to 8 of the block 0 to 9.
abbrev asked : Interval
asked = record { a = pos 5; b = pos 8; position = pos 5 }

abbrev test_reader : Reader
test_reader = record {
  place = pos 5;
  failed = false;
  acumulate = pos 0;
  limit = pos 4;
  filesended = pos 0;
  timerecord = pos 100;
}

abbrev test_look : Look
test_look = record {
  content = test_origin;
  file_end = pos 10;
  recorded = pos 100;
  tested = pos 101;
}

test_read :
    read_body_hit (pos 4) (test_look ∷ []) (asked ∷ []) test_reader
    ≡ last (5 ∷ (6 ∷ (7 ∷ (8 ∷ [])))) (record test_reader { place = pos 9; filesended = pos 4 })
unfolding read_body_hit ◌+ℤ◌ ◌-ℤ◌
test_read = refl

test_reader-IsServing : IsServing (pos 5) asked [] test_reader
unfolding ◌+ℤ◌ ◌-ℤ◌
test_reader-IsServing = record {
  pointer = refl;
  size = refl;
  next = refl;
  nonneg = omega arith;
  under = omega arith;
  follow = tt;
}

asked-Holds : Holds test_origin test_origin asked
asked-Holds y c = ap pos_part {x = pos 5 +ℤ y -ℤ pos 5} {y = y} (omega int_laws)

read_body_hit-IsRightFrom_example :
    IsRightFrom test_origin
      (pos 5)
      (read_body_hit (pos 4) (test_look ∷ []) (asked ∷ []) test_reader)
read_body_hit-IsRightFrom_example =
    read_body_hit-IsRightFrom test_origin (pos 5) (pos 4) (test_look ∷ []) asked [] test_reader
      (asked-Holds, tt) test_reader-IsServing

read_body_hit-IsBarren_example :
    IsBarren
      (read_body_hit (pos 4) (test_look ∷ []) (asked ∷ []) (record test_reader { failed = true }))
read_body_hit-IsBarren_example =
    read_body_hit-IsBarren (pos 4) (test_look ∷ []) asked [] (record test_reader { failed = true })
      refl (λ e. absurd (omega (arith, parts_of_eq _ _ e)))

test_hit : get_range_work (first_block ∷ []) (pos 5) (pos 8) ≡ (asked ∷ [], true)
unfolding get_range_work ◌+ℤ◌ ◌-ℤ◌
test_hit = refl

open_hit-IsOpen_example :
    IsOpen test_origin test_origin (pos 5) (open_hit (pos 100) asked [] test_reader)
open_hit-IsOpen_example =
    open_hit-IsOpen test_origin test_origin (first_block ∷ []) (pos 5) (pos 8) (pos 100) asked []
      test_reader test_download-IsFaithful (omega arith) (omega arith) test_hit
