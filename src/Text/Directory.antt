-- ===== src/Text/Directory.antt =====
-- The directory of the cache that the name of a file is put into: `ConvertChar` of haarp/utils.cpp.
pub mod Form
use haarpcache.Base.{
  ℕ, suc, ◌+◌, ◌-◌, ◌%◌, ◌^◌, ℤ, pos, negsuc, ◌+ℤ◌, ltb, leb, if◌then◌else◌, ◌&&◌, List, [], ◌∷◌,
  ◌++◌, Option, none, some, length, take, drop,
}
use haarpcache.Text.{Bytes, codes, is_empty}
use haarpcache.Text.Number.{print, atoll, is_digit}

-- What a byte of the name adds to `line`: a small letter its number, a digit itself, and any other
-- byte, also one above 127, which is a negative `char`, the number 27.
unfoldable pub byte_digits : ℕ → Bytes
unfolding print is_digit
byte_digits c =
    if ltb c 123 && ltb 96 c
    then print (pos (c - 96))
    else if is_digit c
    then c ∷ []
    else codes "27"

unfoldable pub name_digits : Bytes → Bytes
unfolding byte_digits
name_digits [] = []
name_digits (c ∷ s) = byte_digits c ++ name_digits s

-- An `int` as an `unsigned long`, and the other way.
abbrev pub as_unsigned : ℤ → ℕ
as_unsigned (pos n) = n
as_unsigned (negsuc n) = 2 ^ 64 - (n + 1)

unfoldable pub as_int : ℕ → ℤ
as_int n = let m = n % 2 ^ 32 in if ltb m (2 ^ 31) then pos m else negsuc (2 ^ 32 - (m + 1))

-- The loop that adds up the numbers of three digits; the digits at the end, three at most, are left
-- out.
unfoldable pub add_parts : ℕ → Bytes → ℕ
unfolding atoll
add_parts resultado (x ∷ y ∷ z ∷ s) =
    let rest = add_parts ((resultado + as_unsigned (atoll (x ∷ y ∷ z ∷ []))) % 2 ^ 64) s in
    if is_empty s then resultado else rest
add_parts resultado _ = resultado

-- `resultado` after the loop.
unfoldable pub name_sum : Bytes → ℕ
unfolding name_digits add_parts
name_sum s =
    let line = name_digits s in
    add_parts 0 (if leb (length line) 3 then line ++ codes "282930" else line)

-- The three last bytes.
abbrev pub last_three : Bytes → Bytes
last_three s = if ltb 3 (length s) then drop (length s - 3) s else s

-- The second digit, if there are two.
abbrev pub second_digit : Bytes → Bytes
second_digit updir = if ltb 1 (length updir) then take 1 (drop 1 updir) else updir

-- The path from `tempstr`; `none` is the exception of `substr(2, 2)`.
unfoldable pub directory_of : Bytes → Option Bytes
unfolding print atoll ◌+ℤ◌
directory_of s =
    let updir = print (atoll (take 1 (drop 1 s)) +ℤ atoll (take 2 (drop 2 s))) in
    if ltb (length s) 2
    then none
    else some (second_digit updir ++ (b'/' ∷ (take 1 s ++ (b'_' ∷ drop 1 s))))

unfoldable pub convert_char : Bytes → Option Bytes
unfolding directory_of name_sum as_int print
convert_char s = directory_of (last_three (print (as_int (name_sum s))))
