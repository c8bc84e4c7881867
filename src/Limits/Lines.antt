-- ===== src/Limits/Lines.antt =====
-- The lines that `getLimitBytes` (haarp/connectiontohttp2.cpp) passes over.
use haarpcache.Base.{
  ℤ, true, false, Bool-cases, List, [], ◌∷◌, ◌++◌, Option, none, some, ◌>>=◌, ◌&&◌, All, ◌≡◌, refl,
  sym, ap, ◌∙◌, subst, inl, inr,
}
use haarpcache.Text.{Bytes, codes, find, found, is_prefix}
use haarpcache.Limits.{
  Limits, no_limits, starts, range_line, line_step, lines_loop, status_line, limits_of,
}

-- The call has read a range, from `a` to `b`.
abbrev pub Reads : ℤ → ℤ → Option Limits → Type 0
Reads a b none = ⊥
Reads a b (some s) = (s.range_min ≡ a) × (s.range_max ≡ b) × (s.partial ≡ true)

abbrev pub range_name : Bytes
range_name = codes "Range: bytes="

abbrev pub NoOrigin : Bytes → Type 0
NoOrigin line = starts (codes "Origin:") line ≡ false

-- A line of no interest.
abbrev pub Plain : Bytes → Type 0
Plain line = (starts range_name line ≡ false) × NoOrigin line

pub line_step-Plain : (line : Bytes) (s : Limits) → Plain line → line_step line s ≡ some s
unfolding line_step
line_step-Plain line s h = rw (h.0, h.1) refl

lines_loop-Plain :
    (before rest : List Bytes) (s : Limits)
    → All Plain before
    → lines_loop (before ++ rest) s ≡ lines_loop rest s
unfolding lines_loop
lines_loop-Plain [] rest s h = refl
lines_loop-Plain (line ∷ before) rest s h =
    ap (λ k. k >>= (λ s'. lines_loop (before ++ rest) s')) (line_step-Plain line s h.0)
    ∙ lines_loop-Plain before rest s h.1

pub range_step :
    (v : Bytes) (s : Limits) → line_step (range_name ++ v) s ≡ some (range_line (range_name ++ v) s)
unfolding line_step is_prefix
range_step v s = refl

status_kept :
    (line : Bytes)
    → ((status_line line no_limits).value ≡ []) × ((status_line line no_limits).rangeb ≡ [])
unfolding status_line
status_kept line =
    elim (Bool-cases (found (find (codes " 206 ") line) && found (find (codes "HTTP") line))) [
      | inl t ↦ rw t (refl, refl)
      | inr t ↦ rw t (refl, refl)
    ]

-- What holds behind the first range line of a header holds of the header.
module _ (P : Option Limits → Type 0) (v : Bytes) (after : List Bytes)
    (k : (s : Limits)
      → s.value ≡ []
      → s.rangeb ≡ []
      → P (lines_loop after (range_line (range_name ++ v) s))) where
  from_loop :
      (before : List Bytes) (s : Limits)
      → All Plain before
      → s.value ≡ []
      → s.rangeb ≡ []
      → P (lines_loop (before ++ ((range_name ++ v) ∷ after)) s)
  unfolding lines_loop line_step is_prefix
  from_loop before s h e r =
      subst P (sym (lines_loop-Plain before ((range_name ++ v) ∷ after) s h)) (k s e r)

  pub from_range :
      (before : List Bytes)
      → All Plain before
      → P (limits_of (before ++ ((range_name ++ v) ∷ after)))
  unfolding limits_of
  from_range [] h =
      let kept = status_kept (range_name ++ v) in
      from_loop [] (status_line (range_name ++ v) no_limits) h kept.0 kept.1
  from_range (line ∷ before) h =
      let kept = status_kept line in
      from_loop (line ∷ before) (status_line line no_limits) h kept.0 kept.1

pub lines_loop_skips :
    (after : List Bytes) (s : Limits) → All Plain after → lines_loop after s ≡ some s
unfolding lines_loop
lines_loop_skips [] s h = refl
lines_loop_skips (line ∷ after) s h =
    ap (λ k. k >>= (λ s'. lines_loop after s')) (line_step-Plain line s h.0)
    ∙ lines_loop_skips after s h.1
