-- ===== src/Body/Next.antt =====
-- How `ReadBodyPart` (haarp/connectiontohttp2.cpp) starts a block, and how it records a block that
-- is still in work.
use haarpcache.Base.{
  ℕ, ℤ, pos, ◌+ℤ◌, ◌≤ℤ◌, ◌<ℤ◌, int_laws, parts_of_eq, ltb_ℤ, ltb_ℤ-cases, Bool-cases, not, ◌&&◌,
  ◌∷◌, ◌≡◌, inl, inr, refl, arith,
}
use haarpcache.Intervals.{Interval, Intervals, get_point_end, is_all_hit}
use haarpcache.Intervals.Store.{IsStore}
use haarpcache.Intervals.Append.Places.{get_point_end-nonneg}
use haarpcache.Intervals.Work.Blocks.{IsRight}
use haarpcache.Body.{Download, placed, enter, turn_hit}
use haarpcache.Body.Fill.{Placed}
use haarpcache.Body.Sound.{IsReady, IsClosed, All-Apart-unstored}

-- A block that is right for the store can be worked on, once it has a place.
placed-Placed :
    (l : Intervals) (v : Interval)
    → IsStore l
    → pos 0 ≤ℤ v.a
    → v.a ≤ℤ v.b
    → IsRight l v
    → Placed l (placed l v) (ltb_ℤ v.position (pos 0))
placed-Placed l v h n o r = elim (ltb_ℤ-cases v.position (pos 0)) [
  | inl (t, lt) ↦ rw t (record {
    range = record { nonneg = n; ordered = o; on_disk = get_point_end-nonneg l h };
    at_end = refl;
    apart = All-Apart-unstored (record v { position = get_point_end l }) l o h.ranges (r.misses lt);
  })
  | inr (t, ge) ↦ rw t (record { nonneg = n; ordered = o; on_disk = ge }, r.hits ge)
]

-- The next block is started.
pub enter-IsReady :
    (origin : ℤ → ℕ) (t : ℤ) (v : Interval) (vs : Intervals) (s : Download)
    → pos 0 ≤ℤ t
    → IsClosed origin t (v ∷ vs) s
    → IsReady origin (placed s.lranges v) vs (enter v s)
unfolding enter
enter-IsReady origin t v vs s n c = record {
  filled = record {
    faithful = c.faithful;
    placed =
        placed-Placed s.lranges v c.faithful.store (omega (arith, parts_of_eq _ _ c.ahead.0))
          c.ahead.1 c.ahead.2;
    written = λ y lo hi. absurd (omega (int_laws));
    nonneg = omega arith;
  };
  pointer = omega int_laws;
  size = elim (ltb_ℤ-cases v.position (pos 0)) [ inl (u, _) ↦ rw u refl | inr (u, _) ↦ rw u refl ];
  upto = omega (int_laws, c.ahead.1);
  ahead = elim (ltb_ℤ-cases v.position (pos 0)) [
    | inl (u, _) ↦ rw u c.ahead.3
    | inr (u, _) ↦ rw u c.ahead.3
  ];
}

pub turn_hit-IsReady :
    (origin : ℤ → ℕ) (v w : Interval) (vs ws : Intervals) (s : Download)
    → IsReady origin w ws s
    → IsReady origin w ws (turn_hit v vs s)
unfolding turn_hit
turn_hit-IsReady origin v w vs ws s r = elim (Bool-cases (not s.bwrite && is_all_hit (v ∷ vs))) [
  | inl t ↦ rw t (record {
    filled = r.filled;
    pointer = r.pointer;
    size = r.size;
    upto = r.upto;
    ahead = r.ahead;
  })
  | inr t ↦ rw t r
]

pub placed_a : (l : Intervals) (v : Interval) → (placed l v).a ≡ v.a
placed_a l v = elim (ltb_ℤ-cases v.position (pos 0)) [
  | inl (t, _) ↦ rw t refl
  | inr (t, _) ↦ rw t refl
]

-- The next block is started, and may turn the rest into a hit.
pub start-IsReady :
    (origin : ℤ → ℕ) (t : ℤ) (v : Interval) (vs : Intervals) (s : Download)
    → pos 0 ≤ℤ t
    → IsClosed origin t (v ∷ vs) s
    → IsReady origin (placed s.lranges v) vs (turn_hit (placed s.lranges v) vs (enter v s))
start-IsReady origin t v vs s n c =
    turn_hit-IsReady origin (placed s.lranges v) (placed s.lranges v) vs vs (enter v s)
      (enter-IsReady origin t v vs s n c)

-- Nothing of the new block is written yet.
pub start_at :
    (t : ℤ) (v : Interval) (vs : Intervals) (s : Download)
    → v.a ≡ t
    → (placed s.lranges v).a +ℤ (turn_hit (placed s.lranges v) vs (enter v s)).acumulate ≡ t
unfolding turn_hit enter
start_at t v vs s e =
    elim (Bool-cases (not (enter v s).bwrite && is_all_hit (placed s.lranges v ∷ vs))) [
      | inl u ↦ rw (u, placed_a s.lranges v) (omega (int_laws, parts_of_eq _ _ e))
      | inr u ↦ rw (u, placed_a s.lranges v) (omega (int_laws, parts_of_eq _ _ e))
    ]

pub start_room :
    (v w : Interval) (vs : Intervals) (s : Download)
    → v.a ≤ℤ v.b
    → (turn_hit w vs (enter v s)).acumulate <ℤ (turn_hit w vs (enter v s)).limit
unfolding turn_hit enter
start_room v w vs s o = elim (Bool-cases (not (enter v s).bwrite && is_all_hit (w ∷ vs))) [
  | inl u ↦ rw u (omega int_laws)
  | inr u ↦ rw u (omega int_laws)
]
