-- ===== src/Tests/Plan.antt =====
-- Runs of `Cache2` (haarp/connectiontohttp2.cpp), and an instance of the theorem about it.
use haarpcache.Base.{pos, ◌+ℤ◌, ◌-ℤ◌, ◌≡◌, refl, false, [], ◌∷◌, inl, arith}
use haarpcache.Intervals.{one}
use haarpcache.Intervals.Work.{missing, get_range_work}
use haarpcache.Plan.{Plan, truncate, change, learn_size, settle, plan_blocks, cache2}
use haarpcache.Plan.Blocks.{IsPlan, cache2-IsPlan}
use haarpcache.Tests.Intervals.{first_block, first_block-IsStore}

-- A request from byte 5 on, of a file whose first ten bytes are on disk.
abbrev pub test_plan : Plan
test_plan = record {
  range_min = pos 5;
  range_max = pos 0;
  size_orig_file = pos 0;
  filesizeneto = pos 0;
  flag_change_top_range_max = false;
  flag_truncate_top_range_max = false;
  flag_truncate_old_range_max = pos 0;
  lranges = first_block ∷ [];
  lrangeswork = [];
  hit = false;
  msghit = false;
  sizes = [];
  requests = 0;
}

test_cache2 :
    (cache2 (pos 11) test_plan).lrangeswork
    ≡ record { a = pos 5; b = pos 9; position = pos 5 } ∷ (missing (pos 10) (pos 15) ∷ [])
unfolding cache2 plan_blocks settle learn_size truncate change get_range_work ◌+ℤ◌ ◌-ℤ◌
test_cache2 = refl

cache2-IsPlan_example :
    IsPlan (first_block ∷ []) (pos 5) (pos 11 +ℤ pos 5 -ℤ one) (cache2 (pos 11) test_plan)
    × ((cache2 (pos 11) test_plan).range_max ≡ pos 11 +ℤ pos 5 -ℤ one)
cache2-IsPlan_example =
    cache2-IsPlan (first_block ∷ []) (pos 5) (pos 11) test_plan first_block-IsStore (omega arith)
      (omega arith) (refl, refl, inl refl)
