-- ===== src/Limits.antt =====
-- The range of bytes that a request asks for: `ConnectionToHTTP2::getLimitBytes` of
-- haarp/connectiontohttp2.cpp.
pub mod Lines
pub mod First
use haarpcache.Base.{
  ℕ, ◌+◌, ℤ, pos, negsuc, if◌then◌else◌, ltb, Bool, true, false, ◌&&◌, ◌||◌, List, [], ◌∷◌, ◌++◌,
  Option, none, some, ◌>>=◌, length, drop,
}
use haarpcache.Text.{Bytes, codes, find, found, is_prefix}
use haarpcache.Text.Explode.{stringexplode}
use haarpcache.Text.Number.{atoll}

-- The members that the call sets, and its two vectors, which no line empties.
pub record Limits : Type 0 where
  pub range_min : ℤ
  pub range_max : ℤ
  pub partial : Bool
  pub origin_header : Bytes
  pub value : List Bytes
  pub rangeb : List Bytes

abbrev pub no_limits : Limits
no_limits = record {
  range_min = pos 0;
  range_max = pos 0;
  partial = false;
  origin_header = [];
  value = [];
  rangeb = [];
}

-- `line.find(part) == 0`.
abbrev pub starts : Bytes → Bytes → Bool
starts part line = is_prefix part line

-- `range_min` and `range_max` from `rangeb`.
unfoldable pub set_range : List Bytes → Limits → Limits
set_range [] s = s
set_range (x ∷ []) s = record s { range_min = atoll x; range_max = negsuc 0 }
set_range (x ∷ y ∷ ys) s = record s { range_min = atoll x; range_max = atoll y }

-- What follows `stringexplode(line, "=", &value)`.
unfoldable pub use_value : List Bytes → Limits → Limits
unfolding set_range
use_value [] s = record s { value = [] }
use_value (x ∷ []) s = record s { value = x ∷ [] }
use_value (x ∷ v ∷ vs) s =
    let rangeb = stringexplode v (codes "-") s.rangeb in
    set_range rangeb (record s { value = x ∷ v ∷ vs; partial = true; rangeb = rangeb })

unfoldable pub range_line : Bytes → Limits → Limits
unfolding use_value
range_line line s = use_value (stringexplode line (codes "=") s.value) s

-- One line that is no range line; `none` is the exception of `substr(8)`.
unfoldable pub origin_line : Bytes → Limits → Option Limits
unfolding is_prefix
origin_line line s =
    if starts (codes "Origin:") line
    then (if ltb (length line) 8 then none else some (record s { origin_header = drop 8 line }))
    else some s

-- One round. A line that starts with "Range: bytes=" does not start with "Origin:".
unfoldable pub line_step : Bytes → Limits → Option Limits
unfolding range_line origin_line
line_step line s =
    if starts (codes "Range: bytes=") line then some (range_line line s) else origin_line line s

unfoldable pub lines_loop : List Bytes → Limits → Option Limits
unfolding line_step
lines_loop [] s = some s
lines_loop (line ∷ lines) s = line_step line s >>= (λ s'. lines_loop lines s')

-- The test of the first line.
unfoldable pub status_line : Bytes → Limits → Limits
unfolding find
status_line line s =
    if found (find (codes " 206 ") line) && found (find (codes "HTTP") line)
    then record s { partial = true }
    else s

-- The loop; a header without a line makes `lines.at(0)` throw.
unfoldable pub limits_of : List Bytes → Option Limits
unfolding lines_loop status_line
limits_of [] = none
limits_of (line ∷ lines) = lines_loop (line ∷ lines) (status_line line no_limits)

-- `getLimitBytes`.
unfoldable pub get_limit_bytes : Bytes → Option Limits
unfolding limits_of stringexplode
get_limit_bytes header = limits_of (stringexplode header (b'\r' ∷ (b'\n' ∷ [])) [])
