-- ===== src/Intervals/Append/Places.antt =====
-- Where the blocks recorded by `appendNode` (haarp/utils.cpp) lie on disk, and that `getRangeWork`
-- finds a recorded block.
use haarpcache.Base.{
  ℤ, pos, ◌+ℤ◌, ◌-ℤ◌, int_laws, parts_of_eq, ◌<ℤ◌, ◌≤ℤ◌, true, [], ◌∷◌, ◌≡◌, ◌⊎◌, inl, inr, refl,
  ltb_ℤ-cases, arith, subst, All, All-split,
}
use haarpcache.Intervals.{
  Interval, Intervals, one, get_last_node, get_point_end, get_file_size, get_extremeb, append_node,
  append_sub_node, sort,
}
use haarpcache.Intervals.Append.Disk.{IsFresh, Appends, append_node-Appends}
use haarpcache.Intervals.Append.Last.{IsLast, get_last_node-IsLast}
use haarpcache.Intervals.Store.{At, Stored, IsRange, IsStore, sort-Ascending, sort-Stored}
use haarpcache.Intervals.Work.{get_range_work}
use haarpcache.Intervals.Work.Extreme.{get_extremeb-last_end}
use haarpcache.Intervals.Work.Hit.{get_range_work_hit, nothing_beyond}

-- The file on disk has no hole, and no place on disk is used for two bytes.
pub record IsPacked (l : Intervals) : Type 0 where
  pub packed : get_file_size l ≡ get_point_end l
  pub inside : (y p : ℤ) → Stored l y p → p <ℤ get_point_end l
  pub once : (y z p : ℤ) → Stored l y p → Stored l z p → y ≡ z

-- On a store of disjoint ranges that is packed, `appendNode` with a block that the store did not have
-- and that was written at `getPointEnd` leaves the file free of holes and of places used twice.
pub append_node-IsPacked :
    (l : Intervals) (n : Interval)
    → IsStore l
    → IsPacked l
    → IsFresh l n
    → IsPacked (append_node l n).0
append_node-IsPacked l n h k f = record {
  packed =
      omega (int_laws, parts_of_eq _ _ out.size, parts_of_eq _ _ out.end, parts_of_eq _ _ k.packed);
  inside = λ y p s. within y p ((out.bytes y p).0 s);
  once = λ y z p s t. unique y z p ((out.bytes y p).0 s) ((out.bytes z p).0 t);
}
  where
    out : Appends l n (append_node l n).0
    out = append_node-Appends l n h f

    within : (y p : ℤ) → At n y p ⊎ Stored l y p → p <ℤ get_point_end (append_node l n).0
    within y p (inl ((lo, hi), e)) =
        omega (int_laws, parts_of_eq _ _ out.end, parts_of_eq _ _ e, parts_of_eq _ _ f.at_end)
    within y p (inr s) = omega (int_laws, parts_of_eq _ _ out.end, k.inside y p s, f.range.ordered)

    unique : (y z p : ℤ) → At n y p ⊎ Stored l y p → At n z p ⊎ Stored l z p → y ≡ z
    unique y z p (inl (_, e)) (inl (_, e')) =
        omega (int_laws, parts_of_eq _ _ e, parts_of_eq _ _ e')
    unique y z p (inr s) (inr t) = k.once y z p s t
    unique y z p (inl ((lo, _), e)) (inr t) =
        absurd (omega (int_laws, k.inside z p t, parts_of_eq _ _ e, parts_of_eq _ _ f.at_end))
    unique y z p (inr s) (inl ((lo, _), e)) =
        absurd (omega (int_laws, k.inside y p s, parts_of_eq _ _ e, parts_of_eq _ _ f.at_end))

-- `appendSubNode` records a block as `appendNode` records its first `length` bytes.
pub append_sub_node-append_node :
    (l : Intervals) (n : Interval) (length : ℤ)
    → append_sub_node l n length ≡ append_node l (record n { b = length +ℤ n.a -ℤ one })
unfolding append_sub_node append_node
append_sub_node-append_node [] n length = refl
append_sub_node-append_node (x ∷ xs) n length = refl

stored-le-extremeb : (l : Intervals) (y p : ℤ) → IsStore l → Stored l y p → y ≤ℤ get_extremeb l
stored-le-extremeb l y p h s = elim (ltb_ℤ-cases (get_extremeb l) y) [
  | inr (_, le) ↦ le
  | inl (_, lt) ↦ absurd (
      nothing_beyond (pos 0) (sort l) y p (sort-Ascending l h.ranges h.disjoint)
        (omega (int_laws, parts_of_eq _ _ (get_extremeb-last_end l h))) ((sort-Stored l y p).1 s))
]

-- A block that `appendNode` has recorded is a hit when it is asked for, if the store is one of
-- disjoint ranges that did not have the block and the block was written at `getPointEnd`.
pub get_range_work-append_node :
    (l : Intervals) (n : Interval)
    → IsStore l
    → IsFresh l n
    → (get_range_work (append_node l n).0 n.a n.b).1 ≡ true
get_range_work-append_node l n h f =
    (get_range_work_hit (append_node l n).0 n.a n.b out.store f.range.nonneg f.range.ordered (λ e.
        absurd (
          omega (
            int_laws,
            parts_of_eq _ _ e,
            stored-le-extremeb (append_node l n).0 n.b (n.position +ℤ n.b -ℤ n.a) out.store (
                (out.bytes n.b (n.position +ℤ n.b -ℤ n.a)).1
                  (inl ((f.range.ordered, omega arith), refl))),
          )))).1
      (λ y lo hi. (
        n.position +ℤ y -ℤ n.a,
        (out.bytes y (n.position +ℤ y -ℤ n.a)).1 (inl ((lo, omega int_laws), refl)),
      ))
  where
    out : Appends l n (append_node l n).0
    out = append_node-Appends l n h f

-- The end of the file is a place.
pub get_point_end-nonneg : (l : Intervals) → IsStore l → pos 0 ≤ℤ get_point_end l
unfolding get_point_end
get_point_end-nonneg [] h = omega arith
get_point_end-nonneg (x ∷ xs) h = omega (int_laws, node.ordered, node.on_disk)
  where
    last : IsLast (x ∷ xs) (get_last_node x xs)
    last = get_last_node-IsLast x xs

    node : IsRange (get_last_node x xs).node
    node =
        (All-split IsRange (get_last_node x xs).before
          ((get_last_node x xs).node ∷ (get_last_node x xs).after)
          (subst (λ k. All IsRange k) last.splits h.ranges)).1.0
