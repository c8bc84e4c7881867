-- ===== src/Body/Save.antt =====
-- A block that is still in work is recorded as far as it has come (`ReadBodyPart` of
-- haarp/connectiontohttp2.cpp, every two seconds): what is left of it is a new block again.
use haarpcache.Base.{
  ℕ, ◌+◌, ℤ, pos, ◌+ℤ◌, ◌-ℤ◌, ◌≤ℤ◌, ◌<ℤ◌, int_laws, parts_of_eq, ltb_ℤ-cases, eqb_ℤ, ltb, true,
  false, Bool-cases, not, ◌&&◌, ◌≡◌, ◌⊎◌, inl, inr, refl, ap, subst, All-map, arith,
}
use haarpcache.Text.{Bytes}
use haarpcache.Intervals.{Interval, Intervals, one, append_node, append_sub_node}
use haarpcache.Intervals.Store.{Covers, At, Stored, IsStore}
use haarpcache.Intervals.Append.Disk.{IsFresh, Appends, append_node-Appends}
use haarpcache.Intervals.Append.Places.{append_sub_node-append_node}
use haarpcache.Users.{add_user_cache}
use haarpcache.Body.{
  Clock, Download, Result, going, complete, ended, lost, save_part, tick, sub_update,
}
use haarpcache.Body.Fill.{IsFaithful, IsFilled}
use haarpcache.Body.Sound.{
  IsReady, All-Apart-unstored, Apart-Stored, append_node-IsFaithful, append_node-IsAhead,
}

-- Whatever the outcome, the bytes on disk are right; where the work goes on, the next byte is `y`.
abbrev pub IsSound : (ℤ → ℕ) → ℤ → Result → Type 0
IsSound origin y (going w ws s) = IsReady origin w ws s × (w.a +ℤ s.acumulate ≡ y)
IsSound origin y (complete s) = IsFaithful origin s.lranges s.disk
IsSound origin y (ended s) = IsFaithful origin s.lranges s.disk
IsSound origin y (lost s) = IsFaithful origin s.lranges s.disk

abbrev first_part : Interval → ℤ → Interval
first_part w n = record w { b = n +ℤ w.a -ℤ one }

abbrev last_part : Interval → ℤ → Interval
last_part w n = record w { a = w.a +ℤ n; position = w.position +ℤ n }

first_part-IsFresh :
    (l : Intervals) (w : Interval) (n : ℤ)
    → IsFresh l w
    → pos 0 <ℤ n
    → n ≤ℤ w.b -ℤ w.a
    → IsFresh l (first_part w n)
first_part-IsFresh l w n f lo hi = record {
  range = record { nonneg = f.range.nonneg; ordered = omega int_laws; on_disk = f.range.on_disk };
  at_end = f.at_end;
  apart = All-map (λ s h. elim h [ inl k ↦ inl (omega int_laws) | inr k ↦ inr k ]) l f.apart;
}

last_part-IsFresh :
    (l : Intervals) (w : Interval) (n : ℤ)
    → IsStore l
    → IsFresh l w
    → pos 0 <ℤ n
    → n ≤ℤ w.b -ℤ w.a
    → IsFresh (append_node l (first_part w n)).0 (last_part w n)
last_part-IsFresh l w n h f lo hi = record {
  range = record {
    nonneg = omega (int_laws, f.range.nonneg);
    ordered = omega int_laws;
    on_disk = omega (int_laws, f.range.on_disk);
  };
  at_end = omega (int_laws, parts_of_eq _ _ out.end, parts_of_eq _ _ f.at_end);
  apart =
      All-Apart-unstored (last_part w n) (append_node l (first_part w n)).0 (omega int_laws)
        out.store.ranges (λ y p c s. apart y p c ((out.bytes y p).0 s));
}
  where
    out : Appends l (first_part w n) (append_node l (first_part w n)).0
    out = append_node-Appends l (first_part w n) h (first_part-IsFresh l w n f lo hi)

    apart : (y p : ℤ) → Covers (last_part w n) y → At (first_part w n) y p ⊎ Stored l y p → ⊥
    apart y p c (inl ((_, k), _)) = omega (int_laws, c.0)
    apart y p c (inr s) = Apart-Stored w l y p f.apart s (omega (int_laws, c.0), c.1)

save_part-IsSound :
    (origin : ℤ → ℕ) (w : Interval) (ws : Intervals) (ip : Bytes) (clock : Clock) (s : Download)
    → IsReady origin w ws s
    → s.bwrite ≡ true
    → pos 0 <ℤ s.acumulate
    → s.acumulate <ℤ s.limit
    → IsSound origin (w.a +ℤ s.acumulate) (save_part w ws ip clock s)
unfolding save_part
save_part-IsSound origin w ws ip clock s r t lo hi = (ready, omega int_laws)
  where
    new : IsFilled origin s.lranges s.disk w true s.acumulate
    new = subst (λ c. IsFilled origin s.lranges s.disk w c s.acumulate) t r.filled

    within : s.acumulate ≤ℤ w.b -ℤ w.a
    within = omega (int_laws, parts_of_eq _ _ r.size)

    written :
        (y : ℤ) → Covers (first_part w s.acumulate) y → s.disk (w.position +ℤ y -ℤ w.a) ≡ origin y
    written y c = new.written y c.0 (omega (int_laws, c.1))

    fresh : IsFresh s.lranges (first_part w s.acumulate)
    fresh = first_part-IsFresh s.lranges w s.acumulate new.placed lo within

    stored :
        (append_sub_node s.lranges w s.acumulate).0
        ≡ (append_node s.lranges (first_part w s.acumulate)).0
    stored = ap (λ k. k.0) (append_sub_node-append_node s.lranges w s.acumulate)

    ready : IsReady origin (last_part w s.acumulate) ws (record s {
      lranges = (append_sub_node s.lranges w s.acumulate).0;
      acumulate = pos 0;
      limit = s.limit -ℤ s.acumulate;
      oldfilesended = s.filesended;
      count_wait = 0;
      lusers_db =
          (add_user_cache s.lusers_db ip clock.booked (s.filesended -ℤ s.oldfilesended) false).0;
      rows =
          (sub_update ip clock.booked clock.stored
            (s.filesended -ℤ s.oldfilesended)
            (record s { lranges = (append_sub_node s.lranges w s.acumulate).0 })).rows;
    })
    ready =
        rw (stored, t)
          (record {
            filled = record {
              faithful =
                  append_node-IsFaithful origin s.lranges s.disk (first_part w s.acumulate)
                    new.faithful fresh written;
              placed =
                  last_part-IsFresh s.lranges w s.acumulate new.faithful.store new.placed lo within;
              written = λ y lo hi. absurd (omega int_laws);
              nonneg = omega arith;
            };
            pointer = omega (int_laws, parts_of_eq _ _ r.pointer);
            size = omega (int_laws, parts_of_eq _ _ r.size);
            upto = omega int_laws;
            ahead =
                append_node-IsAhead s.lranges (first_part w s.acumulate) (w.b +ℤ one) ws
                  new.faithful.store fresh (omega (int_laws, within)) r.ahead;
          })

pub tick-IsSound :
    (origin : ℤ → ℕ) (w : Interval) (ws : Intervals) (ip : Bytes) (clock : Clock) (s : Download)
    → IsReady origin w ws s
    → s.acumulate <ℤ s.limit
    → IsSound origin (w.a +ℤ s.acumulate) (tick ip clock w ws s)
unfolding tick
tick-IsSound origin w ws ip clock s r lt = elim (ltb_ℤ-cases one (clock.tested -ℤ s.timerecord)) [
  | inr (t, _) ↦ rw t (r, refl)
  | inl (t, _) ↦
      elim (Bool-cases (ltb 15 (s.count_wait + 1) && not (eqb_ℤ s.acumulate (pos 0)) && s.bwrite)) [
        | inr u ↦ rw (t, u) (counted, refl)
        | inl u ↦
            rw (t, u)
              (save_part-IsSound origin w ws ip clock later counted (ground arith)
                (ground (arith, r.filled.nonneg)) lt)
      ]
]
  where
    later : Download
    later = record s { timerecord = clock.recorded; count_wait = s.count_wait + 1 }

    counted :
        IsReady origin w ws
          (record s { timerecord = clock.recorded; count_wait = s.count_wait + 1 })
    counted = record {
      filled = r.filled;
      pointer = r.pointer;
      size = r.size;
      upto = r.upto;
      ahead = r.ahead;
    }
