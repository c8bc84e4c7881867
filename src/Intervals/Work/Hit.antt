-- ===== src/Intervals/Work/Hit.antt =====
-- The flag `hit` of `getRangeWork` (haarp/utils.cpp) against the bytes in the store.
use haarpcache.Base.{
  ℤ, Bool, pos, ◌+ℤ◌, ◌-ℤ◌, ltb_ℤ-cases, ◌≤ℤ◌, ◌<ℤ◌, int_laws, parts_of_eq, true, [], ◌∷◌, ◌≡◌, ◌↔◌,
  refl, sym, ◌∙◌, subst, inl, inr, arith, All,
}
use haarpcache.Intervals.{Interval, Intervals, one, is_all_hit, get_extremeb, sort}
use haarpcache.Intervals.Store.{Stored, IsStore, Ascending, sort-Ascending, sort-Stored}
use haarpcache.Intervals.Work.{get_range_work}
use haarpcache.Intervals.Work.Blocks.{Tiles, IsRight, Part}
use haarpcache.Intervals.Work.Extreme.{get_extremeb-last_end}
use haarpcache.Intervals.Work.Fill.{last_end, last_end-ge}
use haarpcache.Intervals.Work.Cover.{within_end, short_end, get_range_work-Part}

-- All bytes from `a` up to `t` (not included) are in the store.
abbrev pub AllStored : Intervals → ℤ → ℤ → Type 0
AllStored l a t = (y : ℤ) → a ≤ℤ y → y <ℤ t → (p : ℤ) × Stored l y p

Tiles-le : (a t : ℤ) (ws : Intervals) → Tiles a t ws → a ≤ℤ t
Tiles-le a t [] h = omega (arith, parts_of_eq _ _ h)
Tiles-le a t (w ∷ ws) h = omega (int_laws, parts_of_eq _ _ h.0, h.1, Tiles-le (w.b +ℤ one) t ws h.2)

is_all_hit-cons :
    (w : Interval) (ws : Intervals)
    → is_all_hit (w ∷ ws) ≡ true
    → (pos 0 ≤ℤ w.position) × (is_all_hit ws ≡ true)
unfolding is_all_hit
is_all_hit-cons w ws h = ground arith

is_all_hit_of_stored :
    (l : Intervals) (a t : ℤ) (ws : Intervals)
    → Tiles a t ws
    → All (IsRight l) ws
    → AllStored l a t
    → is_all_hit ws ≡ true
unfolding is_all_hit
is_all_hit_of_stored l a t [] tiles right h = refl
is_all_hit_of_stored l a t (w ∷ ws) tiles right h = elim (ltb_ℤ-cases w.position (pos 0)) [
  | inl (u, neg) ↦
      let (p, st) =
        h w.a (omega (arith, parts_of_eq _ _ tiles.0))
          (omega (int_laws, tiles.1, Tiles-le (w.b +ℤ one) t ws tiles.2)) in
      absurd (right.0.misses neg w.a p (omega arith, tiles.1) st)
  | inr (u, _) ↦ rw u (
      is_all_hit_of_stored l (w.b +ℤ one) t ws tiles.2 right.1
        (λ y lo hi. h y (omega (int_laws, tiles.1, parts_of_eq _ _ tiles.0)) hi))
]

stored_of-is_all_hit :
    (l : Intervals) (a t : ℤ) (ws : Intervals)
    → Tiles a t ws
    → All (IsRight l) ws
    → is_all_hit ws ≡ true
    → AllStored l a t
unfolding is_all_hit
stored_of-is_all_hit l a t [] tiles right h y lo hi = absurd (omega (arith, parts_of_eq _ _ tiles))
stored_of-is_all_hit l a t (w ∷ ws) tiles right h y lo hi = elim (ltb_ℤ-cases w.b y) [
  | inl (_, gt) ↦
      stored_of-is_all_hit l (w.b +ℤ one) t ws tiles.2 right.1 (is_all_hit-cons w ws h).1 y
        (omega int_laws) hi
  | inr (_, le) ↦ (
    w.position +ℤ y -ℤ w.a,
    right.0.hits (is_all_hit-cons w ws h).0 y (omega (arith, parts_of_eq _ _ tiles.0), le),
  )
]

-- A part is a hit exactly if the store has all its bytes.
pub Part-hit :
    (l : Intervals) (a t : ℤ) {ws : Intervals} {hit : Bool}
    → Part l a t ws hit
    → (hit ≡ true) ↔ AllStored l a t
Part-hit l a t {ws} p = (
  λ h. stored_of-is_all_hit l a t ws p.tiles p.right (sym p.flag ∙ h),
  λ h. p.flag ∙ is_all_hit_of_stored l a t ws p.tiles p.right h,
)

-- The answer is a hit exactly if the store has every byte of the request, the request being such
-- that its last byte does not come right behind everything that is stored, or being one byte long.
pub get_range_work_hit :
    (l : Intervals) (a b : ℤ)
    → IsStore l
    → pos 0 ≤ℤ a
    → a ≤ℤ b
    → (b ≡ get_extremeb l +ℤ one → b ≤ℤ a)
    → ((get_range_work l a b).1 ≡ true) ↔ AllStored l a (b +ℤ one)
get_range_work_hit l a b h n o full = Part-hit l a (b +ℤ one) (
    subst (λ e. Part l a e (get_range_work l a b).0 (get_range_work l a b).1)
      (within_end (get_extremeb l +ℤ one) a b full) (get_range_work-Part l a b h n o))

pub nothing_beyond :
    (lo : ℤ) (xs : Intervals) (y p : ℤ) → Ascending lo xs → last_end lo xs ≤ℤ y → ¬ Stored xs y p
nothing_beyond lo [] y p s h st = st
nothing_beyond lo (x ∷ xs) y p s h (inl st) =
    omega (int_laws, st.0.1, last_end-ge (x.b +ℤ one) xs s.2)
nothing_beyond lo (x ∷ xs) y p s h (inr st) = nothing_beyond (x.b +ℤ one) xs y p s.2 h st

-- Where all bytes of the request but its last are in the store, and the last comes right behind
-- everything that is stored, the answer is a hit although the store does not have that byte.
pub get_range_work_short :
    (l : Intervals) (a b : ℤ)
    → IsStore l
    → pos 0 ≤ℤ a
    → a <ℤ b
    → b ≡ get_extremeb l +ℤ one
    → AllStored l a b
    → ((get_range_work l a b).1 ≡ true) × ((p : ℤ) → ¬ Stored l b p)
get_range_work_short l a b h n lt e all = (
  (Part-hit l a b (
        subst (λ e. Part l a e (get_range_work l a b).0 (get_range_work l a b).1)
          (short_end (get_extremeb l +ℤ one) a b lt e)
          (get_range_work-Part l a b h n (omega arith)))).1
      all,
  λ p st.
      nothing_beyond (pos 0) (sort l) b p (sort-Ascending l h.ranges h.disjoint)
        (omega (arith, parts_of_eq _ _ (sym (e ∙ get_extremeb-last_end l h))))
        ((sort-Stored l b p).1 st),
)
