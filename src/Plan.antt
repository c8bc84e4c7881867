-- ===== src/Plan.antt =====
-- What the proxy plans once it knows the length of the answer: `ConnectionToHTTP2::Cache2` of
-- haarp/connectiontohttp2.cpp.
pub mod Blocks
use haarpcache.Base.{
  ℕ, ◌+◌, ℤ, pos, ◌+ℤ◌, ◌-ℤ◌, eqb_ℤ, leb_ℤ, if◌then◌else◌, Bool, true, false, not, ◌&&◌, ◌||◌, List,
  [], ◌∷◌, ◌++◌,
}
use haarpcache.Intervals.{Intervals, one}
use haarpcache.Intervals.Work.{get_range_work, after_range_work}

-- The members that the call reads and changes. `sizes` has the values sent to the column `size`,
-- `requests` counts the updates of `last_request`, and `msghit` says that the message is "HIT".
pub record Plan : Type 0 where
  pub range_min : ℤ
  pub range_max : ℤ
  pub size_orig_file : ℤ
  pub filesizeneto : ℤ
  pub flag_change_top_range_max : Bool
  pub flag_truncate_top_range_max : Bool
  pub flag_truncate_old_range_max : ℤ
  pub lranges : Intervals
  pub lrangeswork : Intervals
  pub hit : Bool
  pub msghit : Bool
  pub sizes : List ℤ
  pub requests : ℕ

unfoldable pub truncate : Plan → Plan
truncate s =
    if s.flag_truncate_top_range_max
    then record s { range_max = s.flag_truncate_old_range_max; lrangeswork = [] }
    else s

unfoldable pub change : ℤ → Plan → Plan
change cl s =
    if s.flag_change_top_range_max then record s { range_max = cl -ℤ one; lrangeswork = [] } else s

-- The first `if`: the size of the file is learnt.
unfoldable pub learn_size : ℤ → Plan → Plan
learn_size cl s =
    let s' = change cl (truncate s) in
    if (eqb_ℤ s.size_orig_file (pos 0) && leb_ℤ s.range_max (pos 0))
      || s.flag_change_top_range_max
      || s.flag_truncate_top_range_max
    then record s' {
      size_orig_file = cl +ℤ s.range_min;
      sizes = s'.sizes ++ ((cl +ℤ s.range_min) ∷ []);
    }
    else s

-- The second one: the range ends where the answer does.
unfoldable pub settle : ℤ → Plan → Plan
settle cl s =
    let s' = record s { range_max = cl +ℤ s.range_min -ℤ one; lrangeswork = [] } in
    if leb_ℤ s.range_max (pos 0)
    then s'
    else if eqb_ℤ s.range_max (cl +ℤ s.range_min -ℤ one)
    then s
    else s'

abbrev pub is_nil : Intervals → Bool
is_nil [] = true
is_nil (w ∷ ws) = false

-- `if (lrangeswork.empty())`.
unfoldable pub plan_blocks : Plan → Plan
plan_blocks s =
    let (blocks, hit) = get_range_work s.lranges s.range_min s.range_max in
    let s' = record s { lrangeswork = blocks; hit = hit; lranges = after_range_work s.lranges } in
    if is_nil s.lrangeswork
    then (if hit then record s' { msghit = true; requests = s.requests + 1 } else s')
    else s

-- `Cache2`.
unfoldable pub cache2 : ℤ → Plan → Plan
cache2 cl s = let s' = settle cl (learn_size cl s) in plan_blocks (record s' { filesizeneto = cl })
