-- ===== src/Intervals/Work/Blocks.antt =====
-- What the blocks of `getRangeWork` (haarp/utils.cpp) should be, and how a block is added.
use haarpcache.Base.{
  ℤ, pos, ◌+ℤ◌, ◌-ℤ◌, ltb_ℤ, ◌≤ℤ◌, ◌<ℤ◌, Bool, true, not, ◌&&◌, [], ◌∷◌, ◌++◌, ◌≡◌, refl, arith,
  All, All-append,
}
use haarpcache.Intervals.{Interval, Intervals, one, is_all_hit}
use haarpcache.Intervals.Store.{Covers, Stored}

-- The blocks follow one another without gap or overlap, from byte `a` up to byte `t` (not included).
abbrev pub Tiles : ℤ → ℤ → Intervals → Type 0
Tiles a t [] = t ≡ a
Tiles a t (w ∷ ws) = (w.a ≡ a) × (w.a ≤ℤ w.b) × Tiles (w.b +ℤ one) t ws

-- A block with a place on disk is read from where the store has its bytes; of a block without one
-- the store has no byte.
pub record IsRight (l : Intervals) (w : Interval) : Type 0 where
  pub hits : pos 0 ≤ℤ w.position → (y : ℤ) → Covers w y → Stored l y (w.position +ℤ y -ℤ w.a)
  pub misses : w.position <ℤ pos 0 → (y p : ℤ) → Covers w y → ¬ Stored l y p

pub record Part (l : Intervals) (a t : ℤ) (ws : Intervals) (hit : Bool) : Type 0 where
  pub tiles : Tiles a t ws
  pub right : All (IsRight l) ws
  pub flag : hit ≡ is_all_hit ws

is_all_hit-concat :
    (ws : Intervals) (v : Interval)
    → is_all_hit (ws ++ (v ∷ [])) ≡ (is_all_hit ws && not (ltb_ℤ v.position (pos 0)))
unfolding is_all_hit
is_all_hit-concat [] v = ground arith
is_all_hit-concat (w ∷ ws) v = ground (arith, is_all_hit-concat ws v)

Tiles-concat :
    (a t u : ℤ) (ws : Intervals) (v : Interval)
    → Tiles a t ws
    → v.a ≡ t
    → v.a ≤ℤ v.b
    → u ≡ v.b +ℤ one
    → Tiles a u (ws ++ (v ∷ []))
Tiles-concat a t u [] v h e o f = (cc, o, f)
Tiles-concat a t u (w ∷ ws) v h e o f = (h.0, h.1, Tiles-concat (w.b +ℤ one) t u ws v h.2 e o f)

pub Part-concat :
    (l : Intervals) (a t u : ℤ) (ws : Intervals) (hit hit' : Bool) (v : Interval)
    → Part l a t ws hit
    → v.a ≡ t
    → v.a ≤ℤ v.b
    → u ≡ v.b +ℤ one
    → IsRight l v
    → hit' ≡ (hit && not (ltb_ℤ v.position (pos 0)))
    → Part l a u (ws ++ (v ∷ [])) hit'
Part-concat l a t u ws hit hit' v p e o f r g = record {
  tiles = Tiles-concat a t u ws v p.tiles e o f;
  right = All-append (IsRight l) ws (v ∷ []) p.right (r, tt);
  flag = rw (is_all_hit-concat ws v, g, p.flag) refl;
}

-- The empty part.
pub Part-nil : (l : Intervals) (a : ℤ) → Part l a a [] true
unfolding is_all_hit
Part-nil l a = record { tiles = refl; right = tt; flag = refl }
