-- ===== src/Body/Read.antt =====
-- A part of the body goes to the file (`ReadBodyPart` of haarp/connectiontohttp2.cpp, for a miss):
-- the file has the bytes of the origin server wherever the list of ranges says that it has them.
use haarpcache.Base.{
  ℕ, zero, suc, ◌≤◌, ℤ, pos, ◌+ℤ◌, ◌-ℤ◌, ◌≤ℤ◌, ◌<ℤ◌, int_laws, parts_of_eq, pos-pos_part,
  ltb_ℤ-cases, eqb_ℤ-cases, [], ◌∷◌, length, take, drop, length-drop, ◌≡◌, ◌⊎◌, inl, inr, refl,
  subst, All, arith,
}
use haarpcache.Text.{Bytes}
use haarpcache.Intervals.{Interval, Intervals, one}
use haarpcache.Intervals.Work.{get_range_work}
use haarpcache.Intervals.Work.Cover.{covered_end, get_range_work-Part}
use haarpcache.Intervals.Store.{IsRange}
use haarpcache.Intervals.Work.Blocks.{IsRight, Tiles, Part}
use haarpcache.Body.{
  tick, Clock, Download, Spill, overflow, room, placed, enter, turn_hit, write_part, close_block,
  missing_bytes, fill_block, spill, next_block, put_rest, after_spill, read_body_part, open_file,
}
use haarpcache.Body.Fill.{FromOrigin, IsFaithful, Placed-IsRange}
use haarpcache.Body.Sound.{IsAhead, IsReady, IsClosed, write_part-IsReady, close_block-IsClosed}
use haarpcache.Body.Next.{start-IsReady, start_at, start_room, enter-IsReady, placed_a}
use haarpcache.Body.Save.{IsSound, tick-IsSound}

take-FromOrigin :
    (origin : ℤ → ℕ) (y : ℤ) (n : ℕ) (xs : Bytes)
    → FromOrigin origin y xs
    → FromOrigin origin y (take n xs)
take-FromOrigin origin y zero xs h = tt
take-FromOrigin origin y (suc n) [] h = tt
take-FromOrigin origin y (suc n) (x ∷ xs) h = (h.0, take-FromOrigin origin (y +ℤ one) n xs h.1)

drop-FromOrigin :
    (origin : ℤ → ℕ) (y z : ℤ) (n : ℕ) (xs : Bytes)
    → z ≡ y +ℤ pos n
    → FromOrigin origin y xs
    → FromOrigin origin z (drop n xs)
drop-FromOrigin origin y z zero xs e h =
    subst (λ k. FromOrigin origin k xs) (omega (int_laws, parts_of_eq _ _ e)) h
drop-FromOrigin origin y z (suc n) [] e h = tt
drop-FromOrigin origin y z (suc n) (x ∷ xs) e h =
    drop-FromOrigin origin (y +ℤ one) z n xs (omega (int_laws, parts_of_eq _ _ e)) h.1

length-take : (n : ℕ) (xs : Bytes) → n ≤ length xs → length (take n xs) ≡ n
length-take zero xs h = refl
length-take (suc n) [] h = omega arith
length-take (suc n) (x ∷ xs) h = omega (arith, length-take n xs (omega arith))

-- What the loop over full blocks leaves, `y` the byte behind the body.
abbrev IsSpilled : (ℤ → ℕ) → ℤ → Spill → Type 0
IsSpilled origin y (overflow s) = IsFaithful origin s.lranges s.disk
IsSpilled origin y (room w ws s part) =
    IsReady origin w ws s
    × FromOrigin origin (w.a +ℤ s.acumulate) part
    × (s.acumulate +ℤ pos (length part) ≤ℤ s.limit)
    × (w.a +ℤ s.acumulate +ℤ pos (length part) ≡ y)

missing_bytes_exact :
    (s : Download) → s.acumulate ≤ℤ s.limit → pos (missing_bytes s) ≡ s.limit -ℤ s.acumulate
missing_bytes_exact s h = pos-pos_part (s.limit -ℤ s.acumulate) (omega int_laws)

fill_block-IsClosed :
    (origin : ℤ → ℕ) (w : Interval) (ws : Intervals) (s : Download) (body : Bytes)
    → IsReady origin w ws s
    → FromOrigin origin (w.a +ℤ s.acumulate) body
    → s.limit <ℤ s.acumulate +ℤ pos (length body)
    → IsClosed origin (w.b +ℤ one) ws (fill_block w s body)
unfolding fill_block write_part
fill_block-IsClosed origin w ws s body r h lt =
    close_block-IsClosed origin w ws (write_part (take (missing_bytes s) body) s)
      (write_part-IsReady origin w ws s (take (missing_bytes s) body) r
        (take-FromOrigin origin (w.a +ℤ s.acumulate) (missing_bytes s) body h)
        (omega (int_laws, whole, parts_of_eq _ _ exact)))
      (omega (int_laws, whole, parts_of_eq _ _ exact))
  where
    exact : pos (missing_bytes s) ≡ s.limit -ℤ s.acumulate
    exact = missing_bytes_exact s r.upto

    whole : length (take (missing_bytes s) body) ≡ missing_bytes s
    whole = length-take (missing_bytes s) body (omega (int_laws, parts_of_eq _ _ exact))

spill-IsSpilled :
    (origin : ℤ → ℕ) (y : ℤ) (w : Interval) (ws : Intervals) (s : Download) (body : Bytes)
    → IsReady origin w ws s
    → FromOrigin origin (w.a +ℤ s.acumulate) body
    → w.a +ℤ s.acumulate +ℤ pos (length body) ≡ y
    → IsSpilled origin y (spill w ws s body)
unfolding spill
spill-IsSpilled origin y w [] s body r h e =
    elim (ltb_ℤ-cases s.limit (s.acumulate +ℤ pos (length body))) [
      | inl (t, lt) ↦ rw t ((fill_block-IsClosed origin w [] s body r h lt).faithful)
      | inr (t, ge) ↦ rw t (r, h, ge, e)
    ]
spill-IsSpilled origin y w (v ∷ vs) s body r h e =
    elim (ltb_ℤ-cases s.limit (s.acumulate +ℤ pos (length body))) [
      | inr (t, ge) ↦ rw t (r, h, ge, e)
      | inl (t, lt) ↦
          let c = fill_block-IsClosed origin w (v ∷ vs) s body r h lt in
          let range = Placed-IsRange s.lranges w s.bwrite r.filled.placed in
          let full = fill_block w s body in
          let exact = missing_bytes_exact s r.upto in
          let at = start_at (w.b +ℤ one) v vs full c.ahead.0 in
          rw t (
            spill-IsSpilled origin y (placed full.lranges v) vs
              (turn_hit (placed full.lranges v) vs (enter v full)) (drop (missing_bytes s) body)
              (start-IsReady origin (w.b +ℤ one) v vs full
                (omega (int_laws, range.nonneg, range.ordered)) c)
              (rw at (
                drop-FromOrigin origin (w.a +ℤ s.acumulate) (w.b +ℤ one) (missing_bytes s) body
                  (omega (int_laws, parts_of_eq _ _ exact, parts_of_eq _ _ r.size)) h))
              (rw at (
                omega (
                  int_laws,
                  parts_of_eq _ _ exact,
                  parts_of_eq _ _ r.size,
                  parts_of_eq _ _ e,
                  length-drop (missing_bytes s) body,
                ))))
    ]

next_block-IsSound :
    (origin : ℤ → ℕ) (size t : ℤ) (ip : Bytes) (clock : Clock) (ws : Intervals) (s : Download)
    → pos 0 ≤ℤ t
    → IsClosed origin t ws s
    → IsSound origin t (next_block size ip clock ws s)
unfolding next_block
next_block-IsSound origin size t ip clock [] s n c = elim (eqb_ℤ-cases s.filesended size) [
  | inl (u, _) ↦ rw u c.faithful
  | inr (u, _) ↦ rw u c.faithful
]
next_block-IsSound origin size t ip clock (v ∷ vs) s n c = elim (eqb_ℤ-cases s.filesended size) [
  | inl (u, _) ↦ rw u c.faithful
  | inr (u, _) ↦ rw u (
      subst (λ k. IsSound origin k (tick ip clock v' vs s')) (start_at t v vs s c.ahead.0)
        (tick-IsSound origin v' vs ip clock s' (start-IsReady origin t v vs s n c)
          (start_room v v' vs s c.ahead.1)))
]
  where
    v' : Interval
    v' = placed s.lranges v

    s' : Download
    s' = turn_hit v' vs (enter v s)

put_rest-IsSound :
    (origin : ℤ → ℕ) (size y : ℤ) (ip : Bytes) (clock : Clock) (w : Interval) (ws : Intervals)
    (s : Download) (part : Bytes)
    → IsSpilled origin y (room w ws s part)
    → IsSound origin y (put_rest size ip clock w ws s part)
unfolding put_rest
put_rest-IsSound origin size y ip clock w ws s part h = elim (eqb_ℤ-cases s'.acumulate s'.limit) [
  | inl (t, e) ↦ rw t (
      subst (λ k. IsSound origin k (next_block size ip clock ws (close_block w s'))) (done e)
        (next_block-IsSound origin size (w.b +ℤ one) ip clock ws (close_block w s')
          (omega (int_laws, range.nonneg, range.ordered))
          (close_block-IsClosed origin w ws s' ready e)))
  | inr (t, ne) ↦ rw t (
      subst (λ k. IsSound origin k (tick ip clock w ws s')) reached
        (tick-IsSound origin w ws ip clock s' ready (under ne)))
]
  where
    s' : Download
    s' = write_part part s

    ready : IsReady origin w ws s'
    ready = write_part-IsReady origin w ws s part h.0 h.1 h.2

    range : IsRange w
    range = Placed-IsRange s.lranges w s.bwrite h.0.filled.placed

    reached : w.a +ℤ s'.acumulate ≡ y
    reached = unfold write_part in omega (int_laws, parts_of_eq _ _ h.3)

    done : s'.acumulate ≡ s'.limit → w.b +ℤ one ≡ y
    done e =
        omega (int_laws, parts_of_eq _ _ e, parts_of_eq _ _ ready.size, parts_of_eq _ _ reached)

    under : (s'.acumulate <ℤ s'.limit) ⊎ (s'.limit <ℤ s'.acumulate) → s'.acumulate <ℤ s'.limit
    under (inl lt) = lt
    under (inr gt) = absurd (omega (arith, ready.upto))

after_spill-IsSound :
    (origin : ℤ → ℕ) (size y : ℤ) (ip : Bytes) (clock : Clock) (p : Spill)
    → IsSpilled origin y p
    → IsSound origin y (after_spill size ip clock p)
unfolding after_spill
after_spill-IsSound origin size y ip clock (overflow s) h = h
after_spill-IsSound origin size y ip clock (room w ws s part) h =
    put_rest-IsSound origin size y ip clock w ws s part h

-- However a part of the body falls on the blocks, and however the call ends: every byte that the
-- list of ranges has is then on disk as it is on the origin server, the ranges are disjoint, and the
-- file has no hole. Where the work goes on, it is again in the state that this asks for, at the byte
-- behind the part.
pub read_body_part-IsSound :
    (origin : ℤ → ℕ) (size : ℤ) (ip : Bytes) (clock : Clock) (w : Interval) (ws : Intervals)
    (s : Download) (body : Bytes)
    → IsReady origin w ws s
    → FromOrigin origin (w.a +ℤ s.acumulate) body
    → IsSound origin
        (w.a +ℤ s.acumulate +ℤ pos (length body))
        (read_body_part size ip clock w ws s body)
unfolding read_body_part
read_body_part-IsSound origin size ip clock w ws s [] r h = (r, omega int_laws)
read_body_part-IsSound origin size ip clock w ws s (x ∷ body) r h =
    after_spill-IsSound origin size (w.a +ℤ s.acumulate +ℤ pos (length (x ∷ body))) ip clock
      (spill w ws s (x ∷ body))
      (spill-IsSpilled origin (w.a +ℤ s.acumulate +ℤ pos (length (x ∷ body))) w ws s (x ∷ body) r h
        refl)

Tiles-IsAhead :
    (l : Intervals) (a t : ℤ) (ws : Intervals) → Tiles a t ws → All (IsRight l) ws → IsAhead l a ws
Tiles-IsAhead l a t [] h k = tt
Tiles-IsAhead l a t (w ∷ ws) h k = (h.0, h.1, k.0, Tiles-IsAhead l (w.b +ℤ one) t ws h.2 k.1)

-- The file is opened for the blocks of `getRangeWork`: the work starts at the first byte of the
-- request.
pub open_file-IsSound :
    (origin : ℤ → ℕ) (a b : ℤ) (w : Interval) (ws : Intervals) (s : Download)
    → IsFaithful origin s.lranges s.disk
    → pos 0 ≤ℤ a
    → a ≤ℤ b
    → (get_range_work s.lranges a b).0 ≡ w ∷ ws
    → IsSound origin a (open_file w ws s)
unfolding open_file
open_file-IsSound origin a b w ws s f n o e = (
  enter-IsReady origin a w ws s n closed,
  unfold enter in rw (placed_a s.lranges w) (omega (int_laws, parts_of_eq _ _ closed.ahead.0)),
)
  where
    part :
        Part s.lranges a
          (covered_end s.lranges a b)
          (get_range_work s.lranges a b).0
          (get_range_work s.lranges a b).1
    part = get_range_work-Part s.lranges a b f.store n o

    closed : IsClosed origin a (w ∷ ws) s
    closed = record {
      faithful = f;
      ahead =
          Tiles-IsAhead s.lranges a (covered_end s.lranges a b) (w ∷ ws)
            (subst (λ k. Tiles a (covered_end s.lranges a b) k) e part.tiles)
            (subst (λ k. All (IsRight s.lranges) k) e part.right);
    }
