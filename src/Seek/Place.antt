-- ===== src/Seek/Place.antt =====
-- Where `longSeekpFile` (haarp/utils.cpp) leaves the file.
use haarpcache.Base.{ℕ, zero, suc, ◌+◌, ◌-◌, ◌*◌, ◌/◌, ◌^◌, ◌<◌, ◌≤◌, ◌≡◌, refl, ◌∙◌, All, arith}
use haarpcache.Seek.{Seek, beg, cur, lint, seek_loop, seek_div, long_seekp_file, run}

-- The offset is an `int` of 32 bits.
abbrev pub IsShort : Seek → Type 0
IsShort (beg n) = n < 2 ^ 31
IsShort (cur n) = n < 2 ^ 31

run-seek_loop : (n place at : ℕ) → n * lint ≤ place → run (seek_loop n place) at ≡ at + place
unfolding seek_loop run
run-seek_loop zero place at h = refl
run-seek_loop (suc n) place at h =
    run-seek_loop n (place - lint) (at + lint) (omega (arith, h)) ∙ omega (arith, h)

seek_loop-IsShort : (n place : ℕ) → place < suc n * lint → All IsShort (seek_loop n place)
unfolding seek_loop
seek_loop-IsShort zero place h = (omega (arith, h), tt)
seek_loop-IsShort (suc n) place h =
    (omega arith, seek_loop-IsShort n (place - lint) (omega (arith, h)))

run-seek_div : (n place at : ℕ) → n * lint ≤ place → run (seek_div n place) at ≡ place
unfolding seek_div run
run-seek_div zero place at h = refl
run-seek_div (suc n) place at h =
    run-seek_loop n (place - lint) lint (omega (arith, h)) ∙ omega (arith, h)

seek_div-IsShort : (n place : ℕ) → place < suc n * lint → All IsShort (seek_div n place)
unfolding seek_div
seek_div-IsShort zero place h = (omega (arith, h), tt)
seek_div-IsShort (suc n) place h =
    (omega arith, seek_loop-IsShort n (place - lint) (omega (arith, h)))

-- Wherever the file stood, `longSeekpFile` leaves it at the place, and each of its seeks has an offset
-- below 2^31.
pub run-long_seekp_file :
    (place at : ℕ) → (run (long_seekp_file place) at ≡ place) × All IsShort (long_seekp_file place)
unfolding long_seekp_file
run-long_seekp_file place at = (
  run-seek_div (place / lint) place at (omega arith),
  seek_div-IsShort (place / lint) place (omega arith),
)
