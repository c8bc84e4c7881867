-- ===== src/Intervals.antt =====
-- The list of stored byte ranges of a cached file: haarp/utils.h and the interval functions of
-- haarp/utils.cpp. `a` and `b` are the first and last byte of a range of the file on the origin
-- server; `position` is where byte `a` stands in the file on disk, and -1 for a range not on disk.
pub mod Store
pub mod Append
pub mod Work
pub mod Codec
use haarpcache.Base.{
  ℤ, pos, negsuc, ◌+ℤ◌, ◌-ℤ◌, ltb_ℤ, leb_ℤ, eqb_ℤ, if◌then◌else◌, Bool, true, false, ◌&&◌, not,
  List, [], ◌∷◌, ◌++◌,
}

pub record Interval : Type 0 where
  pub a : ℤ
  pub b : ℤ
  pub position : ℤ

abbrev pub Intervals : Type 0
Intervals = List Interval

abbrev pub minus_one : ℤ
minus_one = negsuc 0

abbrev pub one : ℤ
one = pos 1

-- `is_all_hit`; the iterator is the rest of the list that it points into.
unfoldable pub is_all_hit : Intervals → Bool
is_all_hit [] = true
is_all_hit (x ∷ xs) = not (ltb_ℤ x.position (pos 0)) && is_all_hit xs

-- `getFileSize`.
file_size_from : ℤ → Intervals → ℤ
file_size_from re [] = re
file_size_from re (x ∷ xs) = file_size_from (re +ℤ (x.b -ℤ x.a +ℤ one)) xs

unfoldable pub get_file_size : Intervals → ℤ
unfolding file_size_from
get_file_size = file_size_from (pos 0)

-- `getExtremeb`.
extremeb_from : ℤ → Intervals → ℤ
extremeb_from max [] = max
extremeb_from max (x ∷ xs) = extremeb_from (if ltb_ℤ max x.b then x.b else max) xs

unfoldable pub get_extremeb : Intervals → ℤ
unfolding extremeb_from
get_extremeb = extremeb_from minus_one

-- An iterator into a list: the nodes before it, the node that it points to, the nodes after it.
pub record Cursor : Type 0 where
  pub before : Intervals
  pub node : Interval
  pub after : Intervals

-- The loop of `getlastnode`: the best node so far, `since` the nodes passed behind it.
last_node_from : Intervals → Interval → Intervals → Intervals → Cursor
last_node_from before best since [] = record { before = before; node = best; after = since }
last_node_from before best since (x ∷ xs) =
    if ltb_ℤ best.position x.position
    then last_node_from (before ++ (best ∷ since)) x [] xs
    else last_node_from before best (since ++ (x ∷ [])) xs

-- `getlastnode` on a list that is not empty (every caller tests `empty()` first). The first round
-- compares the first node with itself, and changes nothing.
unfoldable pub get_last_node : Interval → Intervals → Cursor
unfolding last_node_from
get_last_node x xs = last_node_from [] x [] xs

-- `appendNode`.
unfoldable pub append_node : Intervals → Interval → Intervals × Bool
append_node [] new = (new ∷ [], true)
append_node (x ∷ xs) new =
    let last = get_last_node x xs in
    if eqb_ℤ (last.node.b +ℤ one) new.a
    then (last.before ++ (record (last.node) { b = new.b } ∷ last.after), true)
    else (last.before ++ (last.node ∷ (new ∷ last.after)), true)

-- `appendSubNode`: only the first `length` bytes of the new range are on disk.
unfoldable pub append_sub_node : Intervals → Interval → ℤ → Intervals × Bool
append_sub_node [] new length = (record new { b = length +ℤ new.a -ℤ one } ∷ [], true)
append_sub_node (x ∷ xs) new length =
    let last = get_last_node x xs in
    if eqb_ℤ (last.node.b +ℤ one) new.a
    then (last.before ++ (record (last.node) { b = length +ℤ new.a -ℤ one } ∷ last.after), true)
    else (
      last.before ++ (last.node ∷ (record new { b = length +ℤ new.a -ℤ one } ∷ last.after)),
      true,
    )

-- `getPointEnd`: where the next block goes on disk.
unfoldable pub get_point_end : Intervals → ℤ
get_point_end [] = pos 0
get_point_end (x ∷ xs) =
    let last = (get_last_node x xs).node in last.position +ℤ last.b -ℤ last.a +ℤ one

-- `compareIntervals`, and `std::list::sort` by it: stable, by insertion.
pub compare_intervals : Interval → Interval → Bool
compare_intervals i j = ltb_ℤ i.a j.a

unfoldable pub insert_sorted : Interval → Intervals → Intervals
unfolding compare_intervals
insert_sorted i [] = i ∷ []
insert_sorted i (x ∷ xs) = if compare_intervals x i then x ∷ insert_sorted i xs else i ∷ x ∷ xs

unfoldable pub sort : Intervals → Intervals
unfolding insert_sorted
sort [] = []
sort (x ∷ xs) = insert_sorted x (sort xs)
