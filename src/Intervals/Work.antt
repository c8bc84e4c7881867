-- ===== src/Intervals/Work.antt =====
-- `getRangeWork` of haarp/utils.cpp: how a requested range splits into blocks that are on disk and
-- blocks that must come from the server.
pub mod Blocks
pub mod Fill
pub mod Extreme
pub mod Cover
pub mod Hit
use haarpcache.Base.{
  ℤ, pos, ◌+ℤ◌, ◌-ℤ◌, ltb_ℤ, leb_ℤ, eqb_ℤ, if◌then◌else◌, Bool, true, false, ◌&&◌, [], ◌∷◌, ◌++◌,
  ◌≡◌, refl,
}
use haarpcache.Intervals.{Interval, Intervals, minus_one, one, sort}

-- A block that is not on disk.
abbrev pub missing : ℤ → ℤ → Interval
missing a b = record { a = a; b = b; position = minus_one }

-- How the first loop ends: the request lies inside one stored range, or the blocks so far, the
-- next byte to place (-1 for none) and the ranges still ahead.
pub data Start : Type 0 where
  whole : Interval → Start
  begun : Intervals → ℤ → Intervals → Start

-- The first loop.
unfoldable pub seek : ℤ → ℤ → Intervals → Start
seek a b [] = begun [] minus_one []
seek a b (x ∷ xs) =
    if ltb_ℤ a x.a
    then begun [] a (x ∷ xs)
    else if leb_ℤ x.a a && leb_ℤ a x.b
    then (if leb_ℤ b x.b
        then whole (record { a = a; b = b; position = x.position +ℤ a -ℤ x.a })
        else begun (record { a = a; b = x.b; position = x.position +ℤ a -ℤ x.a } ∷ []) (x.b +ℤ one)
            xs)
    else seek a b xs

pub record Work : Type 0 where
  pub pr : Intervals
  pub tope : ℤ
  pub hit : Bool

-- `if ( tope < it->a )`: the gap before the range `x`.
unfoldable pub gap : Interval → Work → Work
gap x w =
    if ltb_ℤ w.tope x.a
    then record { pr = w.pr ++ (missing w.tope (x.a -ℤ one) ∷ []); tope = x.a; hit = false }
    else w

-- The end of the request lies in `x`.
abbrev pub close : ℤ → Interval → Work → Work
close b x w = record w {
  pr = w.pr ++ (record { a = w.tope; b = b; position = x.position } ∷ []);
  tope = x.b +ℤ one;
}

abbrev pub pass : Interval → Work → Work
pass x w = record w { pr = w.pr ++ (x ∷ []); tope = x.b +ℤ one }

-- The second loop.
unfoldable pub fill : ℤ → Intervals → Work → Work
unfolding gap
fill b [] w = w
fill b (x ∷ xs) w =
    let rest = fill b xs (pass x (gap x w)) in
    if leb_ℤ (pos 0) w.tope
    then (if ltb_ℤ b x.a
        then record { pr = w.pr ++ (missing w.tope b ∷ []); tope = b +ℤ one; hit = false }
        else if leb_ℤ x.a b && leb_ℤ b x.b
        then close b x (gap x w)
        else rest)
    else w

-- What follows the loops.
unfoldable pub finish : ℤ → ℤ → Work → Intervals × Bool
finish a b w =
    if eqb_ℤ w.tope minus_one
    then (missing a b ∷ [], false)
    else if ltb_ℤ w.tope b
    then (w.pr ++ (missing w.tope b ∷ []), false)
    else (w.pr, w.hit)

work_from : ℤ → ℤ → Start → Intervals × Bool
unfolding finish fill
work_from a b (whole x) = (x ∷ [], true)
work_from a b (begun pr tope xs) =
    finish a b (fill b xs (record { pr = pr; tope = tope; hit = true }))

-- The blocks in order, and the flag `hit`.
unfoldable pub get_range_work : Intervals → ℤ → ℤ → Intervals × Bool
unfolding work_from seek sort
get_range_work l a b = work_from a b (seek a b (sort l))

-- The list is sorted in place; an empty one stays as it is.
abbrev pub after_range_work : Intervals → Intervals
after_range_work = sort
