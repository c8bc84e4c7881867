-- ===== src/Seek.antt =====
-- `longSeekpFile` of haarp/utils.cpp: a seek to a place that may lie behind 2^31, by seeks that each
-- fit into 32 bits.
pub mod Place
use haarpcache.Base.{ℕ, zero, suc, ◌+◌, ◌-◌, ◌/◌, List, [], ◌∷◌}

-- `seekg` from the start of the file, or from the place where it stands.
pub data Seek : Type 0 where
  beg : ℕ → Seek
  cur : ℕ → Seek

abbrev pub lint : ℕ
lint = 2000000000

-- The loop, with as many rounds as it has left, and the seek behind it.
unfoldable pub seek_loop : ℕ → ℕ → List Seek
seek_loop zero place = cur place ∷ []
seek_loop (suc n) place = cur lint ∷ seek_loop n (place - lint)

unfoldable pub seek_div : ℕ → ℕ → List Seek
unfolding seek_loop
seek_div zero place = beg place ∷ []
seek_div (suc n) place = beg lint ∷ seek_loop n (place - lint)

-- The seeks to a place that is not negative.
unfoldable pub long_seekp_file : ℕ → List Seek
unfolding seek_div
long_seekp_file place = seek_div (place / lint) place

-- Where the file stands after the seeks.
unfoldable pub run : List Seek → ℕ → ℕ
run [] at = at
run (beg n ∷ s) at = run s n
run (cur n ∷ s) at = run s (at + n)
