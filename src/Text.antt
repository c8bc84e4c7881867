-- ===== src/Text.antt =====
-- Byte strings, for `std::string`, with the searches that the source makes (`find`,
-- `find_first_of`, `find_last_not_of`, `substr`), and the plain text functions of haarp/utils.cpp.
-- A position is a number, and `none` is `string::npos`.
pub mod Directory
pub mod Explode
pub mod Find
pub mod Match
pub mod Number
use haarpcache.Base.{
  ℕ, suc, ◌+◌, ◌-◌, ◌<◌, ◌≡◌, refl, ltb, leb, ◌==◌, if◌then◌else◌, Bool, true, false, not, ◌&&◌,
  ◌||◌, List, [], ◌∷◌, ◌++◌, map, Option, none, some, length, take, drop,
}
use Prim.Native.Char.{code}
use Prim.Native.String.{String}

abbrev pub Bytes : Type 0
Bytes = List ℕ

-- The bytes of an ASCII literal.
abbrev pub codes : String → Bytes
codes String.[] = []
codes (String.◌∷◌ c s) = code c ∷ codes s

unfoldable pub equal : Bytes → Bytes → Bool
equal [] [] = true
equal (x ∷ xs) (y ∷ ys) = x == y && equal xs ys
equal _ _ = false

abbrev pub is_empty : Bytes → Bool
is_empty [] = true
is_empty (c ∷ s) = false

unfoldable pub contains : Bytes → ℕ → Bool
contains [] c = false
contains (x ∷ xs) c = x == c || contains xs c

-- The next position, of what was found behind the first byte.
abbrev pub further : Option ℕ → Option ℕ
further none = none
further (some i) = some (suc i)

-- The position of the first byte that passes the test.
unfoldable pub find_if : (ℕ → Bool) → Bytes → Option ℕ
find_if p [] = none
find_if p (c ∷ s) = let rest = further (find_if p s) in if p c then some 0 else rest

abbrev pub find_first_of : Bytes → Bytes → Option ℕ
find_first_of set = find_if (contains set)

abbrev pub find_first_not_of : Bytes → Bytes → Option ℕ
find_first_not_of set = find_if (λ c. not (contains set c))

-- The position of the last byte that passes the test.
unfoldable pub find_last_if : (ℕ → Bool) → Bytes → Option ℕ
find_last_if p [] = none
find_last_if p (c ∷ s) = elim (find_last_if p s) [
  | some i ↦ some (suc i)
  | none ↦ if p c then some 0 else none
]

unfoldable pub is_prefix : Bytes → Bytes → Bool
is_prefix [] s = true
is_prefix (x ∷ xs) [] = false
is_prefix (x ∷ xs) (c ∷ s) = x == c && is_prefix xs s

-- `find`: the first position of a part. The empty part is found at the end of the string, too.
unfoldable pub find : Bytes → Bytes → Option ℕ
unfolding is_prefix
find part [] = if is_empty part then some 0 else none
find part (c ∷ s) =
    let rest = further (find part s) in if is_prefix part (c ∷ s) then some 0 else rest

-- `!= string::npos`.
abbrev pub found : Option ℕ → Bool
found none = false
found (some i) = true

abbrev pub substr : Bytes → ℕ → ℕ → Bytes
substr s i n = take n (drop i s)

abbrev blanks : Bytes
blanks = b' ' ∷ b'\t' ∷ []

-- `trimstr`.
unfoldable pub trimstr : Bytes → Bytes
unfolding find_if find_last_if contains
trimstr str = elim (find_first_not_of blanks str) [
  | none ↦ []
  | some i ↦ elim (find_last_if (λ c. not (contains blanks c)) str) [
    | none ↦ drop i str
    | some j ↦ substr str i (j - i + 1)
  ]
]

-- `toupper` in the "C" locale.
unfoldable pub to_upper : ℕ → ℕ
to_upper c = if leb b'a' c && leb c b'z' then c - 32 else c

-- `UpperCase`.
unfoldable pub upper_case : Bytes → Bytes
unfolding to_upper
upper_case = map to_upper

-- `getFileExtension`: from behind the last dot, in upper case; the whole name if there is no dot.
unfoldable pub get_file_extension : Bytes → Bytes
unfolding upper_case find_last_if
get_file_extension file = elim (find_last_if (λ c. c == b'.') file) [
  | some i ↦ upper_case (drop (i + 1) file)
  | none ↦ upper_case file
]

-- `getFileName`: from behind the last slash.
unfoldable pub get_file_name : Bytes → Bytes
unfolding find_last_if
get_file_name file = elim (find_last_if (λ c. c == b'/') file) [
  | some i ↦ drop (i + 1) file
  | none ↦ file
]

-- `remove_param`: cuts a parameter out of a URL in place, and says whether it was there.
unfoldable pub remove_param : Bytes → Bytes → Bytes × Bool
unfolding find
remove_param curl param = elim (find param curl) [
  | none ↦ (curl, false)
  | some i ↦ elim (find (b'&' ∷ []) (drop i curl)) [
    | some next ↦ (take i curl ++ drop (i + (next + 1)) curl, true)
    | none ↦ (take (i - 1) curl, true)
  ]
]
