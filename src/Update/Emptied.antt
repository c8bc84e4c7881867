-- ===== src/Update/Emptied.antt =====
-- Where a call of `ReadBodyPart` (haarp/connectiontohttp2.cpp) ends the work on the blocks, nothing of
-- a block is left to record: `acumulate` is 0.
use haarpcache.Base.{
  ℤ, pos, ◌≡◌, refl, Bool-cases, inl, inr, eqb_ℤ, ltb_ℤ, ltb, ◌&&◌, not, ◌+◌, ◌-ℤ◌, [], ◌∷◌,
}
use haarpcache.Text.{Bytes}
use haarpcache.Intervals.{Interval, Intervals, one}
use haarpcache.Body.{
  Clock, Download, Spill, overflow, room, Result, going, complete, ended, lost, tick, save_part,
  next_block, put_rest, after_spill, spill, read_body_part, close_block, write_part, placed,
  turn_hit, enter,
}

abbrev pub IsEmptied : Result → Type 0
IsEmptied (going w ws s) = Unit {0}
IsEmptied (complete s) = s.acumulate ≡ pos 0
IsEmptied (ended s) = s.acumulate ≡ pos 0
IsEmptied (lost s) = Unit {0}

tick-IsEmptied :
    (ip : Bytes) (clock : Clock) (w : Interval) (ws : Intervals) (s : Download)
    → IsEmptied (tick ip clock w ws s)
unfolding tick save_part
tick-IsEmptied ip clock w ws s = elim (Bool-cases (ltb_ℤ one (clock.tested -ℤ s.timerecord))) [
  | inr t ↦ rw t tt
  | inl t ↦
      elim (Bool-cases (ltb 15 (s.count_wait + 1) && not (eqb_ℤ s.acumulate (pos 0)) && s.bwrite)) [
        | inl u ↦ rw (t, u) tt
        | inr u ↦ rw (t, u) tt
      ]
]

next_block-IsEmptied :
    (size : ℤ) (ip : Bytes) (clock : Clock) (ws : Intervals) (s : Download)
    → s.acumulate ≡ pos 0
    → IsEmptied (next_block size ip clock ws s)
unfolding next_block
next_block-IsEmptied size ip clock [] s e = elim (Bool-cases (eqb_ℤ s.filesended size)) [
  | inl t ↦ rw t e
  | inr t ↦ rw t e
]
next_block-IsEmptied size ip clock (v ∷ vs) s e = elim (Bool-cases (eqb_ℤ s.filesended size)) [
  | inl t ↦ rw t e
  | inr t ↦ rw t (
      tick-IsEmptied ip clock (placed s.lranges v) vs
        (turn_hit (placed s.lranges v) vs (enter v s)))
]

close_block-acumulate : (w : Interval) (s : Download) → (close_block w s).acumulate ≡ pos 0
unfolding close_block
close_block-acumulate w s = elim (Bool-cases s.bwrite) [ inl t ↦ rw t refl | inr t ↦ rw t refl ]

after_spill-IsEmptied :
    (size : ℤ) (ip : Bytes) (clock : Clock) (p : Spill) → IsEmptied (after_spill size ip clock p)
unfolding after_spill put_rest
after_spill-IsEmptied size ip clock (overflow s) = tt
after_spill-IsEmptied size ip clock (room w ws s part) =
    let s' = write_part part s in
    elim (Bool-cases (eqb_ℤ s'.acumulate s'.limit)) [
      | inl t ↦
          rw t
            (next_block-IsEmptied size ip clock ws (close_block w s') (close_block-acumulate w s'))
      | inr t ↦ rw t (tick-IsEmptied ip clock w ws s')
    ]

pub read_body_part-IsEmptied :
    (size : ℤ) (ip : Bytes) (clock : Clock) (w : Interval) (ws : Intervals) (s : Download)
    (body : Bytes)
    → IsEmptied (read_body_part size ip clock w ws s body)
unfolding read_body_part
read_body_part-IsEmptied size ip clock w ws s [] = tt
read_body_part-IsEmptied size ip clock w ws s (x ∷ body) =
    after_spill-IsEmptied size ip clock (spill w ws s (x ∷ body))
