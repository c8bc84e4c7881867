-- ===== src/Update/Recorded.antt =====
-- What `Update` of haarp/connectiontohttp2.cpp records of the block in work is right.
use haarpcache.Base.{
  ℕ, ℤ, pos, ◌+ℤ◌, ◌-ℤ◌, ◌≤ℤ◌, ◌<ℤ◌, int_laws, parts_of_eq, eqb_ℤ, eqb_ℤ-cases, Bool, true,
  Bool-cases, not, ◌&&◌, ◌≡◌, inl, inr, refl, sym, subst, All-map, arith,
}
use haarpcache.Intervals.{Interval, Intervals, one}
use haarpcache.Intervals.Store.{Stored}
use haarpcache.Body.{Download}
use haarpcache.Body.Fill.{IsFaithful, IsFilled}
use haarpcache.Intervals.Append.Disk.{IsFresh, append_node-Appends}
use haarpcache.Body.Sound.{IsReady, append_node-IsFaithful}
use haarpcache.Update.{saved}

-- The part of a block that has come.
abbrev so_far : Interval → ℤ → Interval
so_far w n = record w { b = w.a +ℤ n -ℤ one }

so_far-IsFresh :
    (l : Intervals) (w : Interval) (n : ℤ)
    → IsFresh l w
    → pos 0 <ℤ n
    → n ≤ℤ w.b -ℤ w.a +ℤ one
    → IsFresh l (so_far w n)
so_far-IsFresh l w n f lo hi = record {
  range = record { nonneg = f.range.nonneg; ordered = omega int_laws; on_disk = f.range.on_disk };
  at_end = f.at_end;
  apart = All-map (λ s h. elim h [ inl k ↦ inl (omega int_laws) | inr k ↦ inr k ]) l f.apart;
}

abbrev is_unsaved : Download → Bool
is_unsaved s = not (eqb_ℤ s.acumulate (pos 0)) && s.bwrite

unsaved-IsFilled :
    (origin : ℤ → ℕ) (w : Interval) (ws : Intervals) (s : Download)
    → IsReady origin w ws s
    → is_unsaved s ≡ true
    → IsFilled origin s.lranges s.disk w true s.acumulate × IsFresh s.lranges (so_far w s.acumulate)
unsaved-IsFilled origin w ws s r t = (
  new,
  so_far-IsFresh s.lranges w s.acumulate new.placed (ground (arith, r.filled.nonneg))
      (omega (int_laws, r.upto, parts_of_eq _ _ r.size)),
)
  where
    new : IsFilled origin s.lranges s.disk w true s.acumulate
    new = subst (λ c. IsFilled origin s.lranges s.disk w c s.acumulate) (ground (arith, t)) r.filled

saved-IsFaithful :
    (origin : ℤ → ℕ) (w : Interval) (ws : Intervals) (s : Download)
    → IsReady origin w ws s
    → IsFaithful origin (saved w s) s.disk
unfolding saved
saved-IsFaithful origin w ws s r = elim (Bool-cases (is_unsaved s)) [
  | inr t ↦ rw t r.filled.faithful
  | inl t ↦ rw t (
      let (new, fresh) = unsaved-IsFilled origin w ws s r t in
      append_node-IsFaithful origin s.lranges s.disk (so_far w s.acumulate) new.faithful fresh
        (λ y c. new.written y c.0 (omega (int_laws, c.1))))
]

saved-brought :
    (origin : ℤ → ℕ) (w : Interval) (ws : Intervals) (s : Download)
    → IsReady origin w ws s
    → (y : ℤ) → w.a ≤ℤ y
    → y <ℤ w.a +ℤ s.acumulate
    → Stored (saved w s) y (w.position +ℤ y -ℤ w.a)
unfolding saved
saved-brought origin w ws s r y lo hi = elim (Bool-cases (is_unsaved s)) [
  | inr t ↦ rw t (elim (Bool-cases s.bwrite) [
    | inl b ↦ elim (eqb_ℤ-cases s.acumulate (pos 0)) [
      | inl (_, e) ↦ absurd (omega (int_laws, parts_of_eq _ _ e))
      | inr (v, _) ↦ absurd (ground (arith, t, b, v))
    ]
    | inr b ↦
        let old = subst (λ c. IsFilled origin s.lranges s.disk w c s.acumulate) b r.filled in
        old.placed.1 y (lo, omega (int_laws, r.upto, parts_of_eq _ _ r.size))
  ])
  | inl t ↦ rw t (
      let (new, fresh) = unsaved-IsFilled origin w ws s r t in
      let out = append_node-Appends s.lranges (so_far w s.acumulate) new.faithful.store fresh in
      (out.bytes y (w.position +ℤ y -ℤ w.a)).1 (inl ((lo, omega int_laws), refl)))
]

saved-kept :
    (origin : ℤ → ℕ) (w : Interval) (ws : Intervals) (s : Download)
    → IsReady origin w ws s
    → (y p : ℤ) → Stored s.lranges y p
    → Stored (saved w s) y p
unfolding saved
saved-kept origin w ws s r y p k = elim (Bool-cases (is_unsaved s)) [
  | inr t ↦ rw t k
  | inl t ↦ rw t (
      let (new, fresh) = unsaved-IsFilled origin w ws s r t in
      let out = append_node-Appends s.lranges (so_far w s.acumulate) new.faithful.store fresh in
      (out.bytes y p).1 (inr k))
]

-- The state in which a transfer may end: in a block, or with nothing of one.
pub data CanStop (origin : ℤ → ℕ) (w : Interval) (s : Download) : Type 0 where
  in_work : (ws : Intervals) → IsReady origin w ws s → CanStop origin w s
  idle : IsFaithful origin s.lranges s.disk → s.acumulate ≡ pos 0 → CanStop origin w s

saved_idle : (w : Interval) (s : Download) → s.acumulate ≡ pos 0 → saved w s ≡ s.lranges
unfolding saved
saved_idle w s e = rw e refl

-- What is recorded at the end: right, with all that was recorded before, and what has come.
pub record IsRecorded (origin : ℤ → ℕ) (w : Interval) (s : Download) : Type 0 where
  pub faithful : IsFaithful origin (saved w s) s.disk
  pub kept : (y p : ℤ) → Stored s.lranges y p → Stored (saved w s) y p
  pub brought :
      (y : ℤ) → w.a ≤ℤ y → y <ℤ w.a +ℤ s.acumulate → Stored (saved w s) y (w.position +ℤ y -ℤ w.a)

pub CanStop-IsRecorded :
    (origin : ℤ → ℕ) (w : Interval) (s : Download) → CanStop origin w s → IsRecorded origin w s
CanStop-IsRecorded origin w s (in_work ws r) = record {
  faithful = saved-IsFaithful origin w ws s r;
  kept = saved-kept origin w ws s r;
  brought = saved-brought origin w ws s r;
}
CanStop-IsRecorded origin w s (idle f e) = record {
  faithful = subst (λ k. IsFaithful origin k s.disk) (sym (saved_idle w s e)) f;
  kept = λ y p k. subst (λ l. Stored l y p) (sym (saved_idle w s e)) k;
  brought = λ y lo hi. absurd (omega (int_laws, parts_of_eq _ _ e, lo, hi));
}
