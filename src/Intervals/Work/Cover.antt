-- ===== src/Intervals/Work/Cover.antt =====
-- `getRangeWork` (haarp/utils.cpp) as a whole, on a store of disjoint ranges.
use haarpcache.Base.{
  ℤ, pos, ◌+ℤ◌, ◌-ℤ◌, ltb_ℤ, eqb_ℤ, ◌&&◌, ltb_ℤ-cases, leb_ℤ-cases, eqb_ℤ-cases, ◌≤ℤ◌, ◌<ℤ◌,
  int_laws, parts_of_eq, if◌then◌else◌, true, false, [], ◌∷◌, ◌≡◌, refl, sym, ◌∙◌, subst, ◌⊎◌, inl,
  inr, arith,
}
use haarpcache.Intervals.{Interval, Intervals, one, minus_one, get_extremeb, sort}
use haarpcache.Intervals.Store.{Stored, IsRange, IsStore, Ascending, sort-Ascending, sort-Stored}
use haarpcache.Intervals.Work.{
  Work, Start, whole, begun, missing, seek, fill, finish, work_from, get_range_work,
}
use haarpcache.Intervals.Work.Blocks.{Part, Part-concat, Part-nil}
use haarpcache.Intervals.Work.Extreme.{get_extremeb-last_end}
use haarpcache.Intervals.Work.Fill.{
  Ahead, Done, fill-Done, last_end, last_end-ge, behind, first, keep_flag, missing-IsRight,
  part-IsRight,
}

-- What the first loop has found: the request is in one range, or behind all ranges, or the rest
-- of the store is to be walked through from byte `t`.
abbrev Found : Intervals → ℤ → ℤ → ℤ → Start → Type 0
Found l a b e (whole v) = (b <ℤ e) × Part l a (b +ℤ one) (v ∷ []) true
Found l a b e (begun pr t rest) =
    ((t ≡ minus_one) × (rest ≡ []) × (e ≤ℤ a) × ((y p : ℤ) → a ≤ℤ y → ¬ Stored l y p))
    ⊎ ((pos 0 ≤ℤ t)
        × (t ≤ℤ b)
        × (a <ℤ e)
        × Part l a t pr true
        × Ahead l t rest
        × (last_end t rest ≡ e))

one_block :
    (l : Intervals) (a b : ℤ) (x : Interval) (e : ℤ)
    → a ≤ℤ e
    → x.a ≤ℤ a
    → e ≤ℤ x.b
    → IsRange x
    → ((y p : ℤ) → Stored (x ∷ []) y p → Stored l y p)
    → Part l a (e +ℤ one) (record { a = a; b = e; position = x.position +ℤ a -ℤ x.a } ∷ []) true
one_block l a b x e o lo hi r sub =
    Part-concat l a a (e +ℤ one) [] true true _ (Part-nil l a) refl o refl
      (part-IsRight l x (record { a = a; b = e; position = x.position +ℤ a -ℤ x.a }) r.on_disk sub
        lo hi refl)
      (keep_flag true (x.position +ℤ a -ℤ x.a) (omega (int_laws, r.on_disk)))

seek-Found :
    (l : Intervals) (a b lo : ℤ) (xs : Intervals)
    → pos 0 ≤ℤ a
    → a ≤ℤ b
    → lo ≤ℤ a
    → Ascending lo xs
    → ((y p : ℤ) → a ≤ℤ y → Stored l y p → Stored xs y p)
    → ((y p : ℤ) → Stored xs y p → Stored l y p)
    → Found l a b (last_end lo xs) (seek a b xs)
unfolding seek
seek-Found l a b lo [] n o le s later sooner = inl (refl, refl, le, later)
seek-Found l a b lo (x ∷ xs) n o le s later sooner = elim (ltb_ℤ-cases a x.a) [
  | inl (t, lt) ↦ rw t (
      inr (
        n,
        o,
        omega (int_laws, s.1.ordered, last_end-ge (x.b +ℤ one) xs s.2),
        Part-nil l a,
        record { ascending = (omega arith, s.1, s.2); later = later; sooner = sooner },
        refl,
      ))
  | inr (t, ge) ↦ elim (leb_ℤ-cases x.a a) [
    | inr (u, gt) ↦ absurd (omega arith)
    | inl (u, _) ↦ elim (leb_ℤ-cases a x.b) [
      | inr (v, beyond) ↦
          rw (t, u, v)
            (seek-Found l a b (x.b +ℤ one) xs n o (omega int_laws) s.2
              (λ y p h st. behind x xs y p (omega arith) (later y p h st))
              (λ y p st. sooner y p (inr st)))
      | inl (v, within) ↦ elim (leb_ℤ-cases b x.b) [
        | inl (z, in_x) ↦
            rw (t, u, v, z)
              (
                omega (int_laws, last_end-ge (x.b +ℤ one) xs s.2),
                one_block l a b x b o ge in_x s.1 (λ y p st. sooner y p (first x xs y p st)),
              )
        | inr (z, out) ↦
            rw (t, u, v, z)
              (inr (
                omega int_laws,
                omega int_laws,
                omega (int_laws, last_end-ge (x.b +ℤ one) xs s.2),
                one_block l a b x x.b within ge (omega arith) s.1
                    (λ y p st. sooner y p (first x xs y p st)),
                record {
                  ascending = s.2;
                  later =
                      λ y p h st. behind x xs y p (omega int_laws) (later y p (omega int_laws) st);
                  sooner = λ y p st. sooner y p (inr st);
                },
                refl,
              ))
      ]
    ]
  ]
]

-- The byte behind the last block, where the stored ranges end before byte `e`: the end of the
-- request, but one less if exactly its last byte comes right behind everything that is stored.
abbrev pub end_at : ℤ → ℤ → ℤ → ℤ
end_at e a b = if eqb_ℤ b e && ltb_ℤ a b then b else b +ℤ one

abbrev pub covered_end : Intervals → ℤ → ℤ → ℤ
covered_end l = end_at (get_extremeb l +ℤ one)

pub within_end : (e a b : ℤ) → (b ≡ e → b ≤ℤ a) → end_at e a b ≡ b +ℤ one
within_end e a b h = elim (eqb_ℤ-cases b e) [
  | inr (t, _) ↦ rw t
  | inl (t, q) ↦ elim (ltb_ℤ-cases a b) [
    | inr (u, _) ↦ rw (t, u)
    | inl (u, lt) ↦ let le = h q in absurd (omega arith)
  ]
]

pub short_end : (e a b : ℤ) → a <ℤ b → b ≡ e → end_at e a b ≡ b
short_end e a b lt q = elim (eqb_ℤ-cases b e) [
  | inr (t, h) ↦ absurd (omega (arith, parts_of_eq b e q, h))
  | inl (t, _) ↦ elim (ltb_ℤ-cases a b) [
    | inr (u, ge) ↦ absurd (omega arith)
    | inl (u, _) ↦ rw (t, u)
  ]
]

-- A byte to place is never -1.
placed : (t : ℤ) → pos 0 ≤ℤ t → eqb_ℤ t minus_one ≡ false
placed t h = ground arith

finish-Part :
    (l : Intervals) (a b e : ℤ) (w : Work)
    → pos 0 ≤ℤ a
    → a ≤ℤ b
    → a <ℤ e
    → Done l a b e w
    → Part l a (end_at e a b) (finish a b w).0 (finish a b w).1
unfolding finish
finish-Part l a b e w n o st (inl (closed, end, p)) = elim (ltb_ℤ-cases w.tope b) [
  | inl (u, lt) ↦ absurd (omega arith)
  | inr (u, _) ↦
      let start : pos 0 ≤ℤ w.tope = omega arith in
      rw (placed w.tope start, u)
        (rw (within_end e a b (λ q. absurd (omega (arith, parts_of_eq b e q)))) p)
]
finish-Part l a b e w n o st (inr (le, p, none_left, end)) =
    let end' = parts_of_eq w.tope e end in
    let start : pos 0 ≤ℤ w.tope = omega arith in
    elim (ltb_ℤ-cases w.tope b) [
      | inl (u, lt) ↦
          rw (placed w.tope start, u)
            (rw (within_end e a b (λ q. absurd (omega (arith, parts_of_eq b e q)))) (
              Part-concat l a w.tope (b +ℤ one) w.pr w.hit false (missing w.tope b) p refl le refl
                (missing-IsRight l w.tope b (λ y q lo _ s. none_left y q lo s)) (ground arith)))
      | inr (u, ge) ↦
          let q : w.tope ≡ b = omega int_laws in
          rw (placed w.tope start, u)
            (rw (short_end e a b (omega arith) (sym q ∙ end))
              (subst (λ k. Part l a k w.pr w.hit) q p))
    ]

work_from-Part :
    (l : Intervals) (a b e : ℤ) (s : Start)
    → pos 0 ≤ℤ a
    → a ≤ℤ b
    → Found l a b e s
    → Part l a (end_at e a b) (work_from a b s).0 (work_from a b s).1
unfolding work_from finish fill
work_from-Part l a b e (whole v) n o (lt, p) =
    rw (within_end e a b (λ q. absurd (omega (arith, parts_of_eq b e q)))) p
work_from-Part l a b e (begun pr t rest) n o (inl (eq, rest_nil, le, nothing)) =
    rw (eq, rest_nil)
      (rw (within_end e a b (λ q. omega (arith, parts_of_eq b e q))) (
        Part-concat l a a (b +ℤ one) [] true false (missing a b) (Part-nil l a) refl o refl
          (missing-IsRight l a b (λ y q lo _ s. nothing y q lo s)) (ground arith)))
work_from-Part l a b e (begun pr t rest) n o (inr (z, tb, ae, p, h, q)) =
    finish-Part l a b e _ n o ae (
      subst (λ k. Done l a b k (fill b rest (record { pr = pr; tope = t; hit = true }))) q
        (fill-Done l a b rest _ z tb p h))

-- On a store of disjoint ranges the blocks follow one another from the first byte of the request
-- to its last (or to the byte before it, by `covered_end`); a block with a place on disk is where
-- the store has its bytes, of every other block the store has no byte, and `hit` is set exactly if
-- all blocks are on disk.
pub get_range_work-Part :
    (l : Intervals) (a b : ℤ)
    → IsStore l
    → pos 0 ≤ℤ a
    → a ≤ℤ b
    → Part l a (covered_end l a b) (get_range_work l a b).0 (get_range_work l a b).1
unfolding get_range_work
get_range_work-Part l a b h n o = rw (get_extremeb-last_end l h) (
    work_from-Part l a b (last_end (pos 0) (sort l)) (seek a b (sort l)) n o (
      seek-Found l a b (pos 0) (sort l) n o n (sort-Ascending l h.ranges h.disjoint)
        (λ y p _ s. (sort-Stored l y p).1 s) (λ y p s. (sort-Stored l y p).0 s)))
