-- ===== src/Intervals/Work/Fill.antt =====
-- The second loop of `getRangeWork` (haarp/utils.cpp).
use haarpcache.Base.{
  ℤ, pos, ◌+ℤ◌, ◌-ℤ◌, ltb_ℤ, not, ◌&&◌, ltb_ℤ-cases, leb_ℤ-cases, ◌≤ℤ◌, ◌<ℤ◌, int_laws, parts_of_eq,
  Bool, false, [], ◌∷◌, ◌++◌, ◌≡◌, refl, sym, subst, ◌⊎◌, inl, inr, arith,
}
use haarpcache.Intervals.{Interval, Intervals, one}
use haarpcache.Intervals.Store.{Stored, IsRange, Ascending, Ascending-lower}
use haarpcache.Intervals.Work.{Work, missing, gap, close, pass, fill}
use haarpcache.Intervals.Work.Blocks.{IsRight, Part, Part-concat}

-- The end of the last range, and one; `t` if there is none.
abbrev pub last_end : ℤ → Intervals → ℤ
last_end t [] = t
last_end t (s ∷ l) = last_end (s.b +ℤ one) l

pub last_end-ge : (t : ℤ) (l : Intervals) → Ascending t l → t ≤ℤ last_end t l
last_end-ge t [] h = omega arith
last_end-ge t (s ∷ l) h = omega (int_laws, last_end-ge (s.b +ℤ one) l h.2, h.0, h.1.ordered)

-- The ranges `rest` are those of the store `l` that are still ahead at byte `t`.
pub record Ahead (l : Intervals) (t : ℤ) (rest : Intervals) : Type 0 where
  pub ascending : Ascending t rest
  pub later : (y p : ℤ) → t ≤ℤ y → Stored l y p → Stored rest y p
  pub sooner : (y p : ℤ) → Stored rest y p → Stored l y p

-- The loop has placed the whole request, or all the ranges before the end of the request.
abbrev pub Done : Intervals → ℤ → ℤ → ℤ → Work → Type 0
Done l a b e w =
    ((b <ℤ w.tope) × (b <ℤ e) × Part l a (b +ℤ one) w.pr w.hit)
    ⊎ ((w.tope ≤ℤ b)
        × Part l a w.tope w.pr w.hit
        × ((y p : ℤ) → w.tope ≤ℤ y → ¬ Stored l y p)
        × (w.tope ≡ e))

pub missing-IsRight :
    (l : Intervals) (t e : ℤ)
    → ((y p : ℤ) → t ≤ℤ y → y ≤ℤ e → ¬ Stored l y p)
    → IsRight l (missing t e)
missing-IsRight l t e h = record {
  hits = λ q. absurd (omega arith);
  misses = λ _ y p c. h y p c.0 c.1;
}

pub part-IsRight :
    (l : Intervals) (s v : Interval)
    → pos 0 ≤ℤ s.position
    → ((y p : ℤ) → Stored (s ∷ []) y p → Stored l y p)
    → s.a ≤ℤ v.a
    → v.b ≤ℤ s.b
    → v.position ≡ s.position +ℤ v.a -ℤ s.a
    → IsRight l v
part-IsRight l s v n sub lo hi e = record {
  hits = λ _ y c.
      sub y _ (inl ((omega int_laws, omega int_laws), omega (int_laws, parts_of_eq _ _ e)));
  misses = λ q. absurd (omega (int_laws, parts_of_eq _ _ e));
}

module _ (l : Intervals) (a : ℤ) (x : Interval) (xs : Intervals) (w : Work) where
  gap-Part :
      Part l a w.tope w.pr w.hit
      → Ahead l w.tope (x ∷ xs)
      → Part l a x.a (gap x w).pr (gap x w).hit × ((gap x w).tope ≡ x.a)
  unfolding gap
  gap-Part p h = elim (ltb_ℤ-cases w.tope x.a) [
    | inl (t, lt) ↦ rw t (
      Part-concat l a w.tope x.a w.pr w.hit false (missing w.tope (x.a -ℤ one)) p refl
          (omega int_laws) (omega int_laws) (missing-IsRight l w.tope (x.a -ℤ one) nothing)
          (ground arith),
      refl,
    )
    | inr (t, ge) ↦
        let e : w.tope ≡ x.a = omega (int_laws, h.ascending.0) in
        rw t (subst (λ k. Part l a k w.pr w.hit) e p, e)
  ]
    where
      nothing : (y p : ℤ) → w.tope ≤ℤ y → y ≤ℤ (x.a -ℤ one) → ¬ Stored l y p
      nothing y p lo hi s =
          let above =
            Ascending-lower x.a (x ∷ xs) y p (omega arith, h.ascending.1, h.ascending.2)
              (h.later y p lo s) in
          omega (int_laws, above)

pub first : (x : Interval) (xs : Intervals) (y p : ℤ) → Stored (x ∷ []) y p → Stored (x ∷ xs) y p
first x xs y p (inl s) = inl s
first x xs y p (inr s) = absurd s

pub behind :
    (x : Interval) (xs : Intervals) (y p : ℤ) → x.b <ℤ y → Stored (x ∷ xs) y p → Stored xs y p
behind x xs y p h (inl s) = absurd (omega (arith, s.0.1))
behind x xs y p h (inr s) = s

-- A block on disk leaves the flag as it is.
pub keep_flag : (hit : Bool) (q : ℤ) → pos 0 ≤ℤ q → hit ≡ (hit && not (ltb_ℤ q (pos 0)))
keep_flag hit q h = ground arith

module _ (l : Intervals) (a b : ℤ) where
  -- The request ends in front of the range `x`.
  stop-Done :
      (x : Interval) (xs : Intervals) (w : Work) (e : ℤ)
      → w.tope ≤ℤ b
      → b <ℤ x.a
      → b <ℤ e
      → Part l a w.tope w.pr w.hit
      → Ahead l w.tope (x ∷ xs)
      → Done l a b e (record { pr = w.pr ++ (missing w.tope b ∷ []); tope = b +ℤ one; hit = false })
  stop-Done x xs w e le lt end p h = inl (
    omega int_laws,
    end,
    Part-concat l a w.tope (b +ℤ one) w.pr w.hit false (missing w.tope b) p refl le refl
        (missing-IsRight l w.tope b λ y q lo hi s.
          let above =
            Ascending-lower x.a (x ∷ xs) y q (omega arith, h.ascending.1, h.ascending.2)
              (h.later y q lo s) in
          omega (int_laws, above))
        (ground arith),
  )

  -- The request ends in the range `x`.
  close-Done :
      (x : Interval) (xs : Intervals) (w : Work) (e : ℤ)
      → x.a ≤ℤ b
      → b ≤ℤ x.b
      → b <ℤ e
      → Part l a w.tope w.pr w.hit
      → w.tope ≡ x.a
      → IsRange x
      → ((y p : ℤ) → Stored (x ∷ xs) y p → Stored l y p)
      → Done l a b e (close b x w)
  close-Done x xs w e le hi end p t r sub = inl (
    omega int_laws,
    end,
    Part-concat l a w.tope (b +ℤ one) w.pr w.hit w.hit _ p refl (omega (arith, parts_of_eq _ _ t))
        refl
        (part-IsRight l x (record { a = w.tope; b = b; position = x.position }) r.on_disk
          (λ y q s. sub y q (first x xs y q s)) (omega (arith, parts_of_eq _ _ t)) hi
          (omega (int_laws, parts_of_eq _ _ t)))
        (keep_flag w.hit x.position r.on_disk),
  )

  -- The request ends behind the range `x`.
  last_step :
      (x : Interval) (xs : Intervals) (w : Work)
      → x.b <ℤ b
      → Part l a w.tope w.pr w.hit
      → w.tope ≡ x.a
      → IsRange x
      → ((y p : ℤ) → Stored (x ∷ xs) y p → Stored l y p)
      → Part l a (x.b +ℤ one) (pass x w).pr (pass x w).hit
  last_step x xs w lt p t r sub =
      Part-concat l a w.tope (x.b +ℤ one) w.pr w.hit w.hit x p (sym t) r.ordered refl
        (part-IsRight l x x r.on_disk (λ y q s. sub y q (first x xs y q s)) (omega arith)
          (omega arith) (omega int_laws))
        (keep_flag w.hit x.position r.on_disk)

  pass-Ahead :
      (x : Interval) (xs : Intervals) (t : ℤ) → Ahead l t (x ∷ xs) → Ahead l (x.b +ℤ one) xs
  pass-Ahead x xs t h = record {
    ascending = h.ascending.2;
    later = λ y q le s.
        behind x xs y q (omega int_laws)
          (h.later y q (omega (int_laws, h.ascending.0, h.ascending.1.ordered)) s);
    sooner = λ y q s. h.sooner y q (inr s);
  }

  pub fill-Done :
      (rest : Intervals) (w : Work)
      → pos 0 ≤ℤ w.tope
      → w.tope ≤ℤ b
      → Part l a w.tope w.pr w.hit
      → Ahead l w.tope rest
      → Done l a b (last_end w.tope rest) (fill b rest w)
  unfolding fill
  fill-Done [] w n le p h = inr (le, p, h.later, refl)
  fill-Done (x ∷ xs) w n le p h = elim (leb_ℤ-cases (pos 0) w.tope) [
    | inr (t, no_tope) ↦ absurd (omega int_laws)
    | inl (t, _) ↦ elim (ltb_ℤ-cases b x.a) [
      | inl (u, lt) ↦
          rw (t, u)
            (stop-Done x xs w _ le lt
              (omega (int_laws, h.ascending.1.ordered, last_end-ge (x.b +ℤ one) xs h.ascending.2)) p
              h)
      | inr (u, ge) ↦
          let (q, e) = gap-Part l a x xs w p h in
          let q' = subst (λ k. Part l a k (gap x w).pr (gap x w).hit) (sym e) q in
          elim (leb_ℤ-cases x.a b) [
            | inr (v, lt) ↦ absurd (omega int_laws)
            | inl (v, _) ↦ elim (leb_ℤ-cases b x.b) [
              | inl (z, hi) ↦
                  rw (t, u, v, z)
                    (close-Done x xs (gap x w) _ ge hi
                      (omega (int_laws, last_end-ge (x.b +ℤ one) xs h.ascending.2)) q' e
                      h.ascending.1 h.sooner)
              | inr (z, lt) ↦
                  rw (t, u, v, z)
                    (fill-Done xs (pass x (gap x w))
                      (omega (int_laws, h.ascending.0, h.ascending.1.ordered)) (omega int_laws)
                      (last_step x xs (gap x w) lt q' e h.ascending.1 h.sooner)
                      (pass-Ahead x xs w.tope h))
            ]
          ]
    ]
  ]
