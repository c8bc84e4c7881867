-- ===== src/Intervals/Codec.antt =====
-- `list2string` and `generateList` (haarp/utils.cpp): the list of ranges as the two columns `rg`
-- and `pos` of the table `haarp`, such as "0-9,20-29" and "0,10".
pub mod RoundTrip
use mathlib.Core.List.{reverse}
use haarpcache.Base.{
  ℕ, ℤ, pos, negsuc, ◌+ℤ◌, ◌≤ℤ◌, ltb_ℤ, ltb_ℤ-cases, int_laws, parts_of_eq, ◌≡◌, refl, sym, ap, ◌∙◌,
  subst, ◌==◌, if◌then◌else◌, Bool, true, false, Bool-cases, List, [], ◌∷◌, ◌++◌, map, inl, inr,
  arith, length, All, append-nil, append_assoc, ◌↔◌, ◌⊎◌,
}
use haarpcache.Intervals.{Interval, Intervals}
use haarpcache.Intervals.Store.{IsRange, Stored, At}
use haarpcache.Text.{Bytes, codes}
use haarpcache.Text.Explode.{stringexplode, join, IsField, stringexplode-join}
use haarpcache.Text.Number.{print, atoll, atoll-print, print-IsField, print_pos-IsField, is_digit}

list_loop : Bytes → Bytes → Bytes → Intervals → Bytes × Bytes
list_loop coma out out1 [] = (out, out1)
list_loop coma out out1 (x ∷ xs) =
    list_loop (codes ",") (out ++ (coma ++ (print x.a ++ (b'-' ∷ print x.b))))
      (out1 ++ (coma ++ print x.position)) xs

-- `list2string`: the intervals and the positions.
unfoldable pub list2string : Intervals → Bytes × Bytes
unfolding list_loop
list2string l = list_loop [] [] [] l

-- One round for each range: `rang` holds the parts of "a-b".
generate_step : List Bytes → Bytes → Intervals → Intervals × Bool
generate_step [] part acc = (acc, false)
generate_step (p ∷ []) part acc = (acc, false)
generate_step (p ∷ q ∷ _) part acc =
    if ltb_ℤ (atoll q) (atoll p)
    then (acc, false)
    else (record { a = atoll p; b = atoll q; position = atoll part } ∷ acc, true)

-- The loop; the two vectors are equally long.
generate_loop : List Bytes → List Bytes → Intervals → Intervals × Bool
unfolding generate_step
generate_loop [] parts acc = (acc, true)
generate_loop (r ∷ rs) [] acc = (acc, false)
generate_loop (r ∷ rs) (p ∷ ps) acc =
    let (acc', went_on) = generate_step (stringexplode r (codes "-") []) p acc in
    let rest = generate_loop rs ps acc' in if went_on then rest else (acc', false)

-- `generateList`: the list, the last range first, and whether the text was in order.
unfoldable pub generate_list : Bytes → Bytes → Intervals × Bool
unfolding generate_loop
generate_list ranges parts =
    let resul = stringexplode ranges (codes ",") [] in
    let part = stringexplode parts (codes ",") [] in
    if length part == length resul then generate_loop resul part [] else ([], false)
