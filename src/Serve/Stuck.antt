-- ===== src/Serve/Stuck.antt =====
-- The loop of `ReadBodyPart` (haarp/connectiontohttp2.cpp) that waits for a file to grow.
use haarpcache.Base.{
  ℤ, pos, ◌-ℤ◌, leb_ℤ-cases, eqb_ℤ-cases, true, List, [], ◌∷◌, ◌≡◌, ◌≢◌, refl, inl, inr,
}
use haarpcache.Intervals.{Interval, Intervals}
use haarpcache.Serve.{
  Reader, Look, Served, more, last, uneven, late, waiting, read_body_hit, gcount, no_bytes,
}

-- The call is over with -1 for want of bytes, or still runs.
abbrev pub IsBarren : Served → Type 0
IsBarren (more bytes brange s) = ⊥
IsBarren (last bytes s) = ⊥
IsBarren (uneven brange s) = ⊥
IsBarren (late brange s) = Unit {0}
IsBarren (waiting brange s) = Unit {0}

-- Once a read has come up short, the call gets no byte any more, however the file grows: it runs
-- until it gives up.
pub read_body_hit-IsBarren :
    (size : ℤ) (looks : List Look) (w : Interval) (ws : Intervals) (s : Reader)
    → s.failed ≡ true
    → s.filesended ≢ size
    → IsBarren (read_body_hit size looks (w ∷ ws) s)
unfolding read_body_hit no_bytes gcount
read_body_hit-IsBarren size [] w ws s f n = tt
read_body_hit-IsBarren size (look ∷ looks) w ws s f n =
    rw f (elim (leb_ℤ-cases (pos 10) (look.tested -ℤ s.timerecord)) [
      | inl (t, _) ↦ rw t tt
      | inr (t, _) ↦ elim (eqb_ℤ-cases s.filesended size) [
        | inl (_, e) ↦ absurd (n e)
        | inr (u, _) ↦
            rw (t, u) (read_body_hit-IsBarren size looks w ws (record s { failed = true }) refl n)
      ]
    ])
