-- ===== src/Serve/Open.antt =====
-- The file is opened for a request that `getRangeWork` calls a hit (`ReadBodyPart` of
-- haarp/connectiontohttp2.cpp).
use haarpcache.Base.{
  ℕ, ℤ, pos, ◌+ℤ◌, ◌-ℤ◌, ◌≤ℤ◌, int_laws, parts_of_eq, ltb_ℤ, ltb_ℤ-cases, true, false, [], ◌∷◌, ◌≡◌,
  refl, sym, inl, inr, subst, All, arith,
}
use haarpcache.Intervals.{Interval, Intervals, one, is_all_hit}
use haarpcache.Intervals.Work.{get_range_work}
use haarpcache.Intervals.Work.Blocks.{IsRight, Tiles, Part}
use haarpcache.Intervals.Work.Cover.{covered_end, get_range_work-Part}
use haarpcache.Body.{Disk}
use haarpcache.Body.Fill.{IsFaithful}
use haarpcache.Serve.{Reader, Opened, refused, opened, open_hit}
use haarpcache.Serve.Right.{Holds, Follow, IsServing}

-- The call can serve the blocks, from byte `y` on.
abbrev pub IsOpen : (ℤ → ℕ) → Disk → ℤ → Opened → Type 0
IsOpen origin disk y refused = ⊥
IsOpen origin disk y (opened w ws s) =
    IsServing y w ws s × (s.failed ≡ false) × All (Holds origin disk) (w ∷ ws)

Follow-Tiles : (a t : ℤ) (ws : Intervals) → Tiles a t ws → Follow a ws
Follow-Tiles a t [] h = tt
Follow-Tiles a t (w ∷ ws) h = (h.0, h.1, Follow-Tiles (w.b +ℤ one) t ws h.2)

first_hit :
    (w : Interval) (ws : Intervals)
    → is_all_hit (w ∷ ws) ≡ true
    → (ltb_ℤ w.position (pos 0) ≡ false) × (is_all_hit ws ≡ true)
unfolding is_all_hit
first_hit w ws h = ground (arith)

All-Holds :
    (origin : ℤ → ℕ) (l : Intervals) (disk : Disk) (ws : Intervals)
    → IsFaithful origin l disk
    → All (IsRight l) ws
    → is_all_hit ws ≡ true
    → All (Holds origin disk) ws
All-Holds origin l disk [] f r h = tt
All-Holds origin l disk (w ∷ ws) f r h = (
  λ y c. f.content y (w.position +ℤ y -ℤ w.a) (r.0.hits on_disk y c),
  All-Holds origin l disk ws f r.1 (first_hit w ws h).1,
)
  where
    on_disk : pos 0 ≤ℤ w.position
    on_disk =
        let t = (first_hit w ws h).0 in
        elim (ltb_ℤ-cases w.position (pos 0)) [ inl (_, lt) ↦ ground (arith, t) | inr (_, ge) ↦ ge ]

-- A request that `getRangeWork` calls a hit is served from its first byte on, and the file has the
-- bytes of all its blocks, if every stored byte is right.
pub open_hit-IsOpen :
    (origin : ℤ → ℕ) (disk : Disk) (l : Intervals) (a b now : ℤ) (w : Interval) (ws : Intervals)
    (s : Reader)
    → IsFaithful origin l disk
    → pos 0 ≤ℤ a
    → a ≤ℤ b
    → get_range_work l a b ≡ (w ∷ ws, true)
    → IsOpen origin disk a (open_hit now w ws s)
unfolding open_hit
open_hit-IsOpen origin disk l a b now w ws s f n o e = rw (first_hit w ws all).0 (
  record {
    pointer = omega int_laws;
    size = refl;
    next = omega (int_laws, parts_of_eq _ _ part.tiles.0);
    nonneg = omega arith;
    under = omega (int_laws, part.tiles.1);
    follow = Follow-Tiles (w.b +ℤ one) (covered_end l a b) ws part.tiles.2;
  },
  refl,
  All-Holds origin l disk (w ∷ ws) f part.right all,
)
  where
    part : Part l a (covered_end l a b) (w ∷ ws) true
    part =
        subst (λ k. Part l a (covered_end l a b) k.0 k.1) e (get_range_work-Part l a b f.store n o)

    all : is_all_hit (w ∷ ws) ≡ true
    all = sym part.flag
