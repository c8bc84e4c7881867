-- ===== src/Plan/Blocks.antt =====
-- The blocks that `Cache2` (haarp/connectiontohttp2.cpp) leaves are those of the answer.
use haarpcache.Base.{
  ℤ, pos, ◌+ℤ◌, ◌-ℤ◌, ◌≤ℤ◌, int_laws, eqb_ℤ, eqb_ℤ-cases, leb_ℤ-cases, leb_ℤ, Bool-cases, [], ◌≡◌,
  ◌⊎◌, refl, inl, inr, ap, subst, arith, ◌∙◌, ◌||◌, ◌&&◌,
}
use haarpcache.Intervals.{Intervals, one}
use haarpcache.Intervals.Store.{IsStore}
use haarpcache.Intervals.Work.{get_range_work}
use haarpcache.Intervals.Work.Blocks.{Part}
use haarpcache.Intervals.Work.Cover.{covered_end, get_range_work-Part}
use haarpcache.Plan.{Plan, truncate, change, learn_size, settle, plan_blocks, cache2, is_nil}

-- The blocks are those of a range.
abbrev pub IsPlan : Intervals → ℤ → ℤ → Plan → Type 0
IsPlan l a b s = Part l a (covered_end l a b) s.lrangeswork s.hit

-- There are no blocks yet, or they are those of the range.
abbrev pub IsOpenPlan : Intervals → ℤ → Plan → Type 0
IsOpenPlan l a s =
    (s.range_min ≡ a) × (s.lranges ≡ l) × ((s.lrangeswork ≡ []) ⊎ IsPlan l a s.range_max s)

truncate-IsOpenPlan :
    (l : Intervals) (a : ℤ) (s : Plan) → IsOpenPlan l a s → IsOpenPlan l a (truncate s)
unfolding truncate
truncate-IsOpenPlan l a s h = elim (Bool-cases s.flag_truncate_top_range_max) [
  | inl t ↦ rw t (h.0, h.1, inl refl)
  | inr t ↦ rw t h
]

change-IsOpenPlan :
    (l : Intervals) (a cl : ℤ) (s : Plan) → IsOpenPlan l a s → IsOpenPlan l a (change cl s)
unfolding change
change-IsOpenPlan l a cl s h = elim (Bool-cases s.flag_change_top_range_max) [
  | inl t ↦ rw t (h.0, h.1, inl refl)
  | inr t ↦ rw t h
]

learn_size-IsOpenPlan :
    (l : Intervals) (a cl : ℤ) (s : Plan) → IsOpenPlan l a s → IsOpenPlan l a (learn_size cl s)
unfolding learn_size
learn_size-IsOpenPlan l a cl s h =
    let k = change-IsOpenPlan l a cl (truncate s) (truncate-IsOpenPlan l a s h) in
    elim (Bool-cases (
      (eqb_ℤ s.size_orig_file (pos 0) && leb_ℤ s.range_max (pos 0))
      || s.flag_change_top_range_max
      || s.flag_truncate_top_range_max)) [ inl t ↦ rw t k | inr t ↦ rw t h ]

settle-IsOpenPlan :
    (l : Intervals) (a cl : ℤ) (s : Plan)
    → IsOpenPlan l a s
    → IsOpenPlan l a (settle cl s) × ((settle cl s).range_max ≡ cl +ℤ a -ℤ one)
unfolding settle
settle-IsOpenPlan l a cl s h = elim (leb_ℤ-cases s.range_max (pos 0)) [
  | inl (t, _) ↦ rw t ((h.0, h.1, inl refl), ap (λ k. cl +ℤ k -ℤ one) h.0)
  | inr (t, _) ↦ elim (eqb_ℤ-cases s.range_max (cl +ℤ s.range_min -ℤ one)) [
    | inl (u, e) ↦ rw (t, u) (h, e ∙ ap (λ k. cl +ℤ k -ℤ one) h.0)
    | inr (u, _) ↦ rw (t, u) ((h.0, h.1, inl refl), ap (λ k. cl +ℤ k -ℤ one) h.0)
  ]
]

plan_blocks-IsPlan :
    (l : Intervals) (a b : ℤ) (s : Plan)
    → IsStore l
    → pos 0 ≤ℤ a
    → a ≤ℤ b
    → IsOpenPlan l a s
    → s.range_max ≡ b
    → IsPlan l a b (plan_blocks s) × ((plan_blocks s).range_max ≡ b)
unfolding plan_blocks
plan_blocks-IsPlan l a b s h n o p e = elim (Bool-cases (is_nil s.lrangeswork)) [
  | inr t ↦ rw t (
    elim p.2 [
      | inl none_yet ↦ absurd (ground (arith, t, ap is_nil none_yet))
      | inr k ↦ subst (λ k. Part l a (covered_end l a k) s.lrangeswork s.hit) e k
    ],
    e,
  )
  | inl t ↦ elim (Bool-cases (get_range_work s.lranges s.range_min s.range_max).1) [
    | inl u ↦
        rw (t, u)
          (
            subst
                (λ k.
                  Part l a (covered_end l a b) (get_range_work s.lranges s.range_min s.range_max).0
                    k)
                u part,
            e,
          )
    | inr u ↦
        rw (t, u)
          (
            subst
                (λ k.
                  Part l a (covered_end l a b) (get_range_work s.lranges s.range_min s.range_max).0
                    k)
                u part,
            e,
          )
  ]
]
  where
    part :
        Part l a
          (covered_end l a b)
          (get_range_work s.lranges s.range_min s.range_max).0
          (get_range_work s.lranges s.range_min s.range_max).1
    part = rw (p.1, p.0, e) (get_range_work-Part l a b h n o)

-- `Cache2` leaves a range that ends where the answer does, and the blocks of this range as
-- `getRangeWork` cuts it.
pub cache2-IsPlan :
    (l : Intervals) (a cl : ℤ) (s : Plan)
    → IsStore l
    → pos 0 ≤ℤ a
    → one ≤ℤ cl
    → IsOpenPlan l a s
    → IsPlan l a (cl +ℤ a -ℤ one) (cache2 cl s) × ((cache2 cl s).range_max ≡ cl +ℤ a -ℤ one)
unfolding cache2
cache2-IsPlan l a cl s h n o p =
    let settled = settle-IsOpenPlan l a cl (learn_size cl s) (learn_size-IsOpenPlan l a cl s p) in
    plan_blocks-IsPlan l a (cl +ℤ a -ℤ one)
      (record (settle cl (learn_size cl s)) { filesizeneto = cl }) h n (omega int_laws) settled.0
      settled.1
