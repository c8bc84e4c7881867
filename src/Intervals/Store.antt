-- ===== src/Intervals/Store.antt =====
-- What a list of ranges says of the file on disk, whatever the order of its nodes, and that
-- `std::list::sort` by `compareIntervals` (haarp/utils.cpp) keeps it and orders the ranges.
use haarpcache.Base.{
  ℤ, pos, ◌+ℤ◌, ◌-ℤ◌, ltb_ℤ-cases, ◌≤ℤ◌, ◌<ℤ◌, int_laws, [], ◌∷◌, ◌≡◌, ◌↔◌, ◌⊎◌, inl, inr, All,
}
use haarpcache.Intervals.{Interval, Intervals, one, insert_sorted, sort}

-- Byte `y` of the origin's file lies in the range `s`.
abbrev pub Covers : Interval → ℤ → Type 0
Covers s y = (s.a ≤ℤ y) × (y ≤ℤ s.b)

-- The range `s` puts byte `y` of the origin's file at place `p` on disk.
abbrev pub At : Interval → ℤ → ℤ → Type 0
At s y p = Covers s y × (p ≡ s.position +ℤ y -ℤ s.a)

-- Some range of the list puts byte `y` at place `p` on disk.
abbrev pub Stored : Intervals → ℤ → ℤ → Type 0
Stored [] y p = ⊥
Stored (s ∷ l) y p = At s y p ⊎ Stored l y p

-- Some range of the list has byte `y`.
abbrev pub Cached : Intervals → ℤ → Type 0
Cached [] y = ⊥
Cached (s ∷ l) y = Covers s y ⊎ Cached l y

pub record IsRange (s : Interval) : Type 0 where
  pub nonneg : pos 0 ≤ℤ s.a
  pub ordered : s.a ≤ℤ s.b
  pub on_disk : pos 0 ≤ℤ s.position

-- Two ranges have no byte in common.
abbrev pub Apart : Interval → Interval → Type 0
Apart s t = (s.b <ℤ t.a) ⊎ (t.b <ℤ s.a)

abbrev pub Disjoint : Intervals → Type 0
Disjoint [] = Unit {0}
Disjoint (s ∷ l) = All (Apart s) l × Disjoint l

-- Ranges on disk, no two of which have a byte in common.
pub record IsStore (l : Intervals) : Type 0 where
  pub ranges : All IsRange l
  pub disjoint : Disjoint l

-- The ranges stand in order, from byte `lo` on, with no byte in two of them.
abbrev pub Ascending : ℤ → Intervals → Type 0
Ascending lo [] = Unit {0}
Ascending lo (s ∷ l) = (lo ≤ℤ s.a) × IsRange s × Ascending (s.b +ℤ one) l

pub insert_sorted-All {ℓ} :
    (P : Interval → Type ℓ) (i : Interval) (l : Intervals)
    → P i
    → All P l
    → All P (insert_sorted i l)
unfolding insert_sorted
insert_sorted-All P i [] hi h = (hi, tt)
insert_sorted-All P i (x ∷ xs) hi h = elim (ltb_ℤ-cases x.a i.a) [
  | inl (t, _) ↦ rw t (h.0, insert_sorted-All P i xs hi h.1)
  | inr (t, _) ↦ rw t (hi, h)
]

pub sort-All {ℓ} : (P : Interval → Type ℓ) (l : Intervals) → All P l → All P (sort l)
unfolding sort
sort-All P [] h = tt
sort-All P (x ∷ xs) h = insert_sorted-All P x (sort xs) h.0 (sort-All P xs h.1)

insert_sorted-Ascending :
    (lo : ℤ) (i : Interval) (l : Intervals)
    → lo ≤ℤ i.a
    → IsRange i
    → All (Apart i) l
    → Ascending lo l
    → Ascending lo (insert_sorted i l)
unfolding insert_sorted
insert_sorted-Ascending lo i [] h r ap s = (h, r, tt)
insert_sorted-Ascending lo i (x ∷ xs) h r (inl before, ap) s = elim (ltb_ℤ-cases x.a i.a) [
  | inl (t, lt) ↦ absurd (omega (int_laws, r.ordered))
  | inr (t, ge) ↦ rw t (h, r, (omega int_laws, s.1, s.2))
]
insert_sorted-Ascending lo i (x ∷ xs) h r (inr behind, ap) s = elim (ltb_ℤ-cases x.a i.a) [
  | inl (t, lt) ↦
      rw t (s.0, s.1, insert_sorted-Ascending (x.b +ℤ one) i xs (omega int_laws) r ap s.2)
  | inr (t, ge) ↦ absurd (omega (int_laws, s.1.ordered))
]

-- A sorted store is ascending.
pub sort-Ascending : (l : Intervals) → All IsRange l → Disjoint l → Ascending (pos 0) (sort l)
unfolding sort
sort-Ascending [] r d = tt
sort-Ascending (x ∷ xs) r d =
    insert_sorted-Ascending (pos 0) x (sort xs) r.0.nonneg r.0 (sort-All (Apart x) xs d.0)
      (sort-Ascending xs r.1 d.1)

pub swap_⊎ {ℓ κ μ} : {A : Type ℓ} {B : Type κ} {C : Type μ} → A ⊎ (B ⊎ C) → B ⊎ (A ⊎ C)
swap_⊎ (inl a) = inr (inl a)
swap_⊎ (inr (inl b)) = inl b
swap_⊎ (inr (inr c)) = inr (inr c)

pub map_right {ℓ κ μ} : {A : Type ℓ} {B : Type κ} {C : Type μ} → (B → C) → A ⊎ B → A ⊎ C
map_right f (inl a) = inl a
map_right f (inr b) = inr (f b)

insert_sorted-Stored_of :
    (i : Interval) (l : Intervals) (y p : ℤ)
    → At i y p ⊎ Stored l y p
    → Stored (insert_sorted i l) y p
unfolding insert_sorted
insert_sorted-Stored_of i [] y p h = h
insert_sorted-Stored_of i (x ∷ xs) y p h = elim (ltb_ℤ-cases x.a i.a) [
  | inl (t, _) ↦ rw t (map_right (insert_sorted-Stored_of i xs y p) (swap_⊎ h))
  | inr (t, _) ↦ rw t h
]

Stored-insert_sorted :
    (i : Interval) (l : Intervals) (y p : ℤ)
    → Stored (insert_sorted i l) y p
    → At i y p ⊎ Stored l y p
unfolding insert_sorted
Stored-insert_sorted i [] y p h = h
Stored-insert_sorted i (x ∷ xs) y p h = elim (ltb_ℤ-cases x.a i.a) [
  | inl (t, _) ↦ swap_⊎ (map_right (Stored-insert_sorted i xs y p) (rw t at h))
  | inr (t, _) ↦ rw t at h
]

-- Sorting moves no byte.
pub sort-Stored : (l : Intervals) (y p : ℤ) → Stored (sort l) y p ↔ Stored l y p
unfolding sort
sort-Stored [] y p = (λ h. h, λ h. h)
sort-Stored (x ∷ xs) y p = (
  λ h. map_right (sort-Stored xs y p).0 (Stored-insert_sorted x (sort xs) y p h),
  λ h. insert_sorted-Stored_of x (sort xs) y p (map_right (sort-Stored xs y p).1 h),
)

-- Behind the first byte of an ascending list nothing else is stored before it.
pub Ascending-lower : (lo : ℤ) (l : Intervals) (y p : ℤ) → Ascending lo l → Stored l y p → lo ≤ℤ y
Ascending-lower lo (s ∷ l) y p h (inl (c, _)) = omega (int_laws, h.0, c.0)
Ascending-lower lo (s ∷ l) y p h (inr t) =
    let later = Ascending-lower (s.b +ℤ one) l y p h.2 t in
    omega (int_laws, h.0, h.1.ordered, later)
Ascending-lower lo [] y p h e = elim e [ ]
