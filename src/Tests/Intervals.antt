-- ===== src/Tests/Intervals.antt =====
-- Runs of the interval functions of haarp/utils.cpp, and instances of the theorems about them.
use mathlib.Core.List.{reverse}
use haarpcache.Base.{
  pos, ◌+ℤ◌, ◌-ℤ◌, ℤ, parts_of_eq, ◌≡◌, ◌↔◌, refl, true, false, [], ◌∷◌, inl, arith,
}
use haarpcache.Intervals.{
  Interval, Intervals, one, get_extremeb, get_point_end, get_last_node, get_file_size, append_node,
  append_sub_node,
}
use haarpcache.Intervals.Store.{Stored, IsStore}
use haarpcache.Intervals.Work.{missing, get_range_work}
use haarpcache.Intervals.Work.Blocks.{Part}
use haarpcache.Intervals.Work.Cover.{covered_end, get_range_work-Part}
use haarpcache.Intervals.Work.Hit.{AllStored, get_range_work_hit, get_range_work_short}
use haarpcache.Intervals.Append.Disk.{IsFresh, Appends, append_node-Appends}
use haarpcache.Intervals.Append.Places.{
  IsPacked, append_node-IsPacked, append_sub_node-append_node, get_range_work-append_node,
}
use haarpcache.Intervals.Codec.{list2string, generate_list}
use haarpcache.Intervals.Codec.RoundTrip.{generate_list-list2string}
use haarpcache.Text.{codes}
use haarpcache.Text.Explode.{stringexplode}
use haarpcache.Text.Number.{print, atoll}

test_store : Intervals
test_store =
    record { a = pos 20; b = pos 29; position = pos 10 }
    ∷ (record { a = pos 0; b = pos 9; position = pos 0 } ∷ [])

test_work : get_range_work test_store (pos 5) (pos 25) ≡ (
  record { a = pos 5; b = pos 9; position = pos 5 }
      ∷ (missing (pos 10) (pos 19) ∷ (record { a = pos 20; b = pos 25; position = pos 10 } ∷ [])),
  false,
)
unfolding test_store get_range_work ◌+ℤ◌ ◌-ℤ◌
test_work = refl

abbrev test_list : Intervals
test_list =
    record { a = pos 0; b = pos 9; position = pos 0 }
    ∷ (record { a = pos 20; b = pos 29; position = pos 10 } ∷ [])

test_codec : list2string test_list ≡ (codes "0-9,20-29", codes "0,10")
unfolding list2string print
test_codec = refl

test_generate : generate_list (codes "0-9,20-29") (codes "0,10") ≡ (reverse test_list, true)
unfolding generate_list stringexplode atoll
test_generate = refl

abbrev sample : Intervals
sample =
    record { a = pos 20; b = pos 29; position = pos 10 }
    ∷ (record { a = pos 0; b = pos 9; position = pos 0 } ∷ [])

sample-IsStore : IsStore sample
sample-IsStore = omega arith

get_range_work-Part_example :
    Part sample
      (pos 5)
      (covered_end sample (pos 5) (pos 25))
      (get_range_work sample (pos 5) (pos 25)).0
      (get_range_work sample (pos 5) (pos 25)).1
get_range_work-Part_example =
    get_range_work-Part sample (pos 5) (pos 25) sample-IsStore (omega arith) (omega arith)

sample_whole : AllStored sample (pos 20) (pos 30)
sample_whole y lo hi = (pos 10 +ℤ y -ℤ pos 20, inl ((lo, omega arith), refl))

get_range_work_hit_example :
    ((get_range_work sample (pos 20) (pos 29)).1 ≡ true) ↔ AllStored sample (pos 20) (pos 29 +ℤ one)
unfolding get_extremeb ◌+ℤ◌
get_range_work_hit_example =
    get_range_work_hit sample (pos 20) (pos 29) sample-IsStore (omega arith) (omega arith)
      (λ e. absurd (omega (arith, parts_of_eq _ _ e)))

get_range_work_short_example :
    ((get_range_work sample (pos 20) (pos 30)).1 ≡ true) × ((p : ℤ) → ¬ Stored sample (pos 30) p)
unfolding get_extremeb ◌+ℤ◌
get_range_work_short_example =
    get_range_work_short sample (pos 20) (pos 30) sample-IsStore (omega arith) (omega arith) refl
      sample_whole

-- The first block of a file, and one that comes later.
abbrev pub first_block : Interval
first_block = record { a = pos 0; b = pos 9; position = pos 0 }

abbrev later_block : Interval
later_block = record { a = pos 20; b = pos 29; position = pos 10 }

first_block-IsFresh : IsFresh [] first_block
unfolding get_point_end
first_block-IsFresh = record { range = omega arith; at_end = refl; apart = tt }

later_block-IsFresh : IsFresh (first_block ∷ []) later_block
unfolding get_point_end get_last_node ◌+ℤ◌ ◌-ℤ◌
later_block-IsFresh = record { range = omega arith; at_end = refl; apart = omega arith }

pub first_block-IsStore : IsStore (first_block ∷ [])
first_block-IsStore = omega arith

nothing_yet : IsPacked []
unfolding get_point_end get_file_size
nothing_yet = record { packed = refl; inside = λ y p s. absurd s; once = λ y z p s t. absurd s }

pub first_block-IsPacked : IsPacked (first_block ∷ [])
unfolding append_node
first_block-IsPacked =
    append_node-IsPacked [] first_block (record { ranges = tt; disjoint = tt }) nothing_yet
      first_block-IsFresh

append_node-Appends_example :
    Appends (first_block ∷ []) later_block (append_node (first_block ∷ []) later_block).0
append_node-Appends_example =
    append_node-Appends (first_block ∷ []) later_block first_block-IsStore later_block-IsFresh

append_node-IsPacked_example : IsPacked (append_node (first_block ∷ []) later_block).0
append_node-IsPacked_example =
    append_node-IsPacked (first_block ∷ []) later_block first_block-IsStore first_block-IsPacked
      later_block-IsFresh

append_sub_node-append_node_example :
    append_sub_node (first_block ∷ []) later_block (pos 4)
    ≡ append_node (first_block ∷ []) (record later_block { b = pos 4 +ℤ pos 20 -ℤ one })
append_sub_node-append_node_example =
    append_sub_node-append_node (first_block ∷ []) later_block (pos 4)

get_range_work-append_node_example :
    (get_range_work (append_node (first_block ∷ []) later_block).0 (pos 20) (pos 29)).1 ≡ true
get_range_work-append_node_example =
    get_range_work-append_node (first_block ∷ []) later_block first_block-IsStore
      later_block-IsFresh

generate_list-list2string_example :
    generate_list (list2string test_list).0 (list2string test_list).1 ≡ (reverse test_list, true)
generate_list-list2string_example = generate_list-list2string test_list (omega arith)
