-- ===== src/Serve/Full.antt =====
-- `ReadBodyPart` (haarp/connectiontohttp2.cpp) on a file that is long enough: each call serves a
-- full buffer, or all that the block has left.
use haarpcache.Base.{
  ℕ, ◌<◌, ℤ, pos, ◌+ℤ◌, ◌-ℤ◌, ◌<ℤ◌, int_laws, parts_of_eq, pos-pos_part, ltb_ℤ-cases, false, [],
  ◌∷◌, length, ◌≡◌, inl, inr, arith,
}
use haarpcache.Intervals.{Intervals, one}
use haarpcache.Serve.{Reader, Served, more, last, uneven, late, waiting, maxrecv, tbuffer}

abbrev pub size_of_all : Intervals → ℤ
size_of_all [] = pos 0
size_of_all (w ∷ ws) = w.b -ℤ w.a +ℤ one +ℤ size_of_all ws

-- The bytes still to serve, in the block in work and in those behind it.
abbrev pub left : Intervals → Reader → ℤ
left [] s = pos 0
left (w ∷ ws) s = s.limit -ℤ s.acumulate +ℤ size_of_all ws

-- A call serves `n` bytes, and either all is served then, or the bytes to serve are those left.
abbrev pub Delivers : ℕ → ℤ → Served → Type 0
Delivers n size (more bytes [] s) = ⊥
Delivers n size (more bytes (w ∷ ws) s) =
    (length bytes ≡ n) × (s.failed ≡ false) × (size ≡ s.filesended +ℤ left (w ∷ ws) s)
Delivers n size (last bytes s) = (length bytes ≡ n) × (size ≡ s.filesended)
Delivers n size (uneven brange s) = ⊥
Delivers n size (late brange s) = ⊥
Delivers n size (waiting brange s) = ⊥

pub tbuffer_positive : (s : Reader) → s.acumulate <ℤ s.limit → 0 < tbuffer s
unfolding tbuffer
tbuffer_positive s lt = elim (ltb_ℤ-cases s.limit (s.acumulate +ℤ pos maxrecv)) [
  | inl (t, _) ↦
      rw t
        (omega (int_laws, parts_of_eq _ _ (pos-pos_part (s.limit -ℤ s.acumulate) (omega int_laws))))
  | inr (t, _) ↦ rw t (omega arith)
]

-- The length of the answer is what was sent and what is left.
abbrev Counts : ℤ → Intervals → Reader → Type 0
Counts size [] s = size ≡ s.filesended
Counts size (w ∷ ws) s =
    (s.failed ≡ false) × (size ≡ s.filesended +ℤ left (w ∷ ws) s) × (pos 0 <ℤ left (w ∷ ws) s)
