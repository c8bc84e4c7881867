-- ===== src/Intervals/Work/Extreme.antt =====
-- `getExtremeb` (haarp/utils.cpp): the greatest last byte, whatever the order of the list.
use haarpcache.Base.{
  ℤ, pos, ◌+ℤ◌, ltb_ℤ, ltb_ℤ-cases, int_laws, eq_of_parts, if◌then◌else◌, [], ◌∷◌, ◌≡◌, refl, sym,
  ap, ◌∙◌, inl, inr, arith,
}
use haarpcache.Intervals.{
  Interval, Intervals, one, minus_one, extremeb_from, get_extremeb, insert_sorted, sort,
}
use haarpcache.Intervals.Store.{IsStore, Ascending, sort-Ascending}
use haarpcache.Intervals.Work.Fill.{last_end}

extremeb_from-last_end :
    (m : ℤ) (l : Intervals)
    → Ascending (m +ℤ one) l
    → extremeb_from m l +ℤ one ≡ last_end (m +ℤ one) l
unfolding extremeb_from
extremeb_from-last_end m [] h = refl
extremeb_from-last_end m (x ∷ xs) h = elim (ltb_ℤ-cases m x.b) [
  | inl (t, _) ↦ rw t (extremeb_from-last_end x.b xs h.2)
  | inr (t, le) ↦ absurd (omega (int_laws, h.0, h.1.ordered))
]

max_swap :
    (m p q : ℤ)
    → (let n = if ltb_ℤ m p then p else m in if ltb_ℤ n q then q else n)
      ≡ (let n = if ltb_ℤ m q then q else m in if ltb_ℤ n p then p else n)
max_swap m p q = ground (arith, eq_of_parts p q)

extremeb_from-swap :
    (m : ℤ) (x y : Interval) (l : Intervals)
    → extremeb_from m (x ∷ y ∷ l) ≡ extremeb_from m (y ∷ x ∷ l)
unfolding extremeb_from
extremeb_from-swap m x y l = ap (λ k. extremeb_from k l) (max_swap m x.b y.b)

extremeb_from-insert_sorted :
    (m : ℤ) (i : Interval) (l : Intervals)
    → extremeb_from m (insert_sorted i l) ≡ extremeb_from m (i ∷ l)
unfolding insert_sorted extremeb_from
extremeb_from-insert_sorted m i [] = refl
extremeb_from-insert_sorted m i (x ∷ xs) = elim (ltb_ℤ-cases x.a i.a) [
  | inl (t, _) ↦ rw t (
      extremeb_from-insert_sorted (if ltb_ℤ m x.b then x.b else m) i xs
      ∙ extremeb_from-swap m x i xs)
  | inr (t, _) ↦ rw t refl
]

extremeb_from-sort : (m : ℤ) (l : Intervals) → extremeb_from m (sort l) ≡ extremeb_from m l
unfolding sort extremeb_from
extremeb_from-sort m [] = refl
extremeb_from-sort m (x ∷ xs) =
    extremeb_from-insert_sorted m x (sort xs)
    ∙ extremeb_from-sort (if ltb_ℤ m x.b then x.b else m) xs

-- The greatest last byte is where the sorted store ends.
pub get_extremeb-last_end :
    (l : Intervals) → IsStore l → get_extremeb l +ℤ one ≡ last_end (pos 0) (sort l)
unfolding get_extremeb ◌+ℤ◌
get_extremeb-last_end l h =
    ap (λ k. k +ℤ one) (sym (extremeb_from-sort minus_one l))
    ∙ extremeb_from-last_end minus_one (sort l) (sort-Ascending l h.ranges h.disjoint)
