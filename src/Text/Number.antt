-- ===== src/Text/Number.antt =====
-- Decimal numbers: what `operator<<` and `sprintf` ("%lli", "%li", "%d") print and what `atoll` and
-- `sscanf` ("%d", "%lld") read, over integers of any size; and `itoa`, `llitoa`, `lldtoa` of
-- haarp/utils.cpp.
pub mod Length
pub mod Prefix
use haarpcache.Base.{
  ℕ, zero, suc, ◌+◌, ◌-◌, ◌*◌, ◌/◌, ◌%◌, ◌<◌, ◌≤◌, ℤ, pos, negsuc, ◌≡◌, refl, ap, ◌∙◌, ltb, leb,
  ◌==◌, if◌then◌else◌, Bool, true, false, ◌&&◌, ◌||◌, Bool-cases, [], ◌∷◌, ◌++◌, Option, none, some,
  inl, inr, arith, All, All-append,
}
use haarpcache.Text.{Bytes, contains, is_empty}
use haarpcache.Text.Explode.{IsField}

unfoldable pub is_digit : ℕ → Bool
is_digit c = leb b'0' c && leb c b'9'

-- The digits, the last one first found; `fuel` above the number is enough.
nat_digits : ℕ → ℕ → Bytes
nat_digits zero n = []
nat_digits (suc fuel) n =
    let rest = nat_digits fuel (n / 10) in
    if ltb n 10 then (b'0' + n) ∷ [] else rest ++ ((b'0' + n % 10) ∷ [])

unfoldable pub print_nat : ℕ → Bytes
unfolding nat_digits
print_nat n = nat_digits (suc n) n

unfoldable pub print : ℤ → Bytes
unfolding print_nat
print (pos n) = print_nat n
print (negsuc n) = b'-' ∷ print_nat (suc n)

-- `itoa`, `llitoa`, `lldtoa`.
abbrev pub llitoa : ℤ → Bytes
llitoa = print

-- The digits at the front of the string, read on from `acc`.
scan_digits : ℕ → Bytes → ℕ
unfolding is_digit
scan_digits acc [] = acc
scan_digits acc (c ∷ s) =
    let rest = scan_digits (acc * 10 + (c - b'0')) s in if is_digit c then rest else acc

unfoldable pub parse_nat : Bytes → Option ℕ
unfolding scan_digits
parse_nat [] = none
parse_nat (c ∷ s) = if is_digit c then some (scan_digits 0 (c ∷ s)) else none

abbrev is_space : ℕ → Bool
is_space c = c == b' ' || (leb 9 c && leb c 13)

abbrev negated : Option ℕ → Option ℤ
negated none = none
negated (some zero) = some (pos 0)
negated (some (suc n)) = some (negsuc n)

abbrev positive : Option ℕ → Option ℤ
positive none = none
positive (some n) = some (pos n)

-- `sscanf` of one number: `none` if there is no number at the front, behind white space.
unfoldable pub scan : Bytes → Option ℤ
unfolding parse_nat
scan [] = none
scan (c ∷ s) =
    let rest = scan s in
    if is_space c
    then rest
    else if c == b'-'
    then negated (parse_nat s)
    else if c == b'+'
    then positive (parse_nat s)
    else positive (parse_nat (c ∷ s))

-- `atoll`, `atol` and `atoi`: 0 where there is no number.
unfoldable pub atoll : Bytes → ℤ
unfolding scan
atoll s = elim (scan s) [ none ↦ pos 0 | some z ↦ z ]

abbrev pub IsDigit : ℕ → Type 0
IsDigit c = is_digit c ≡ true

digit : (d : ℕ) → d < 10 → IsDigit (b'0' + d)
unfolding is_digit
digit d h = ground arith

nat_digits-IsDigit : (f n : ℕ) → All IsDigit (nat_digits f n)
unfolding nat_digits
nat_digits-IsDigit zero n = tt
nat_digits-IsDigit (suc f) n = elim (Bool-cases (ltb n 10)) [
  | inl t ↦ rw t (digit n (ground arith), tt)
  | inr t ↦ rw t (
      All-append IsDigit (nat_digits f (n / 10)) ((b'0' + n % 10) ∷ [])
        (nat_digits-IsDigit f (n / 10)) (digit (n % 10) (omega arith), tt))
]

scan_digits-concat :
    (acc : ℕ) (s : Bytes) (d : ℕ)
    → All IsDigit s
    → d < 10
    → scan_digits acc (s ++ ((b'0' + d) ∷ [])) ≡ scan_digits acc s * 10 + d
unfolding scan_digits
scan_digits-concat acc [] d h lt = ground (arith, digit d lt)
scan_digits-concat acc (c ∷ s) d h lt =
    ground (arith, h.0, scan_digits-concat (acc * 10 + (c - b'0')) s d h.1 lt)

scan_digits_one : (d : ℕ) → d < 10 → scan_digits 0 ((b'0' + d) ∷ []) ≡ d
unfolding scan_digits
scan_digits_one d h = ground (arith, digit d h)

scan_digits-nat_digits : (f n : ℕ) → n < f → scan_digits 0 (nat_digits f n) ≡ n
unfolding nat_digits
scan_digits-nat_digits zero n h = absurd (omega arith)
scan_digits-nat_digits (suc f) n h = elim (Bool-cases (ltb n 10)) [
  | inl t ↦ rw t (scan_digits_one n (ground arith))
  | inr t ↦ rw t (
      scan_digits-concat 0 (nat_digits f (n / 10)) (n % 10) (nat_digits-IsDigit f (n / 10))
        (omega arith)
      ∙ rw (scan_digits-nat_digits f (n / 10) (ground arith)) (omega arith))
]

is_empty-concat : (s : Bytes) (c : ℕ) → is_empty (s ++ (c ∷ [])) ≡ false
is_empty-concat [] c = refl
is_empty-concat (x ∷ s) c = refl

is_empty-nat_digits : (f n : ℕ) → n < f → is_empty (nat_digits f n) ≡ false
unfolding nat_digits
is_empty-nat_digits zero n h = absurd (omega arith)
is_empty-nat_digits (suc f) n h = elim (Bool-cases (ltb n 10)) [
  | inl t ↦ rw t refl
  | inr t ↦ rw t (is_empty-concat (nat_digits f (n / 10)) (b'0' + n % 10))
]

parse_nat_digits :
    (s : Bytes) → All IsDigit s → is_empty s ≡ false → parse_nat s ≡ some (scan_digits 0 s)
unfolding parse_nat
parse_nat_digits [] h e = cc
parse_nat_digits (c ∷ s) h e = rw h.0 refl

digit_bounds : (c : ℕ) → is_digit c ≡ true → (b'0' ≤ c) × (c ≤ b'9')
unfolding is_digit
digit_bounds c h = ground arith

scan_of_digits : (s : Bytes) → All IsDigit s → is_empty s ≡ false → scan s ≡ positive (parse_nat s)
unfolding scan is_digit
scan_of_digits [] h e = cc
scan_of_digits (c ∷ s) h e = ground (arith, digit_bounds c h.0)

pub print_nat-IsDigit : (n : ℕ) → All IsDigit (print_nat n)
unfolding print_nat
print_nat-IsDigit n = nat_digits-IsDigit (suc n) n

pub is_empty-print_nat : (n : ℕ) → is_empty (print_nat n) ≡ false
unfolding print_nat
is_empty-print_nat n = is_empty-nat_digits (suc n) n (omega arith)

parse_nat-print_nat : (n : ℕ) → parse_nat (print_nat n) ≡ some n
parse_nat-print_nat n =
    parse_nat_digits (print_nat n) (print_nat-IsDigit n) (is_empty-print_nat n)
    ∙ ap some (unfold print_nat in scan_digits-nat_digits (suc n) n (omega arith))

-- Every integer that is printed is read back.
pub scan-print : (z : ℤ) → scan (print z) ≡ some z
unfolding print scan
scan-print (pos n) =
    scan_of_digits (print_nat n) (print_nat-IsDigit n) (is_empty-print_nat n)
    ∙ ap positive (parse_nat-print_nat n)
scan-print (negsuc n) = ap negated (parse_nat-print_nat (suc n))

pub atoll-print : (z : ℤ) → atoll (print z) ≡ z
unfolding atoll
atoll-print z = rw (scan-print z, atoll) refl

contains-digits : (c : ℕ) (s : Bytes) → is_digit c ≡ false → All IsDigit s → contains s c ≡ false
unfolding contains is_digit
contains-digits c [] h d = refl
contains-digits c (x ∷ s) h d = ground (arith, d.0, contains-digits c s h d.1)

contains-cons :
    (x c : ℕ) (s : Bytes) → (c == x) ≡ false → contains s c ≡ false → contains (x ∷ s) c ≡ false
unfolding contains
contains-cons x c s h k = ground arith

-- A printed number can stand between separators that are neither digits nor the minus sign.
pub print-IsField : (c : ℕ) (z : ℤ) → is_digit c ≡ false → (c == b'-') ≡ false → IsField c (print z)
unfolding print contains
print-IsField c (pos n) h m = record {
  filled = is_empty-print_nat n;
  free = contains-digits c (print_nat n) h (print_nat-IsDigit n);
}
print-IsField c (negsuc n) h m = record {
  filled = refl;
  free =
      contains-cons b'-' c (print_nat (suc n)) m
        (contains-digits c (print_nat (suc n)) h (print_nat-IsDigit (suc n)));
}

-- A number that is not negative can stand between minus signs.
pub print_pos-IsField : (c n : ℕ) → is_digit c ≡ false → IsField c (print (pos n))
unfolding print
print_pos-IsField c n h = record {
  filled = is_empty-print_nat n;
  free = contains-digits c (print_nat n) h (print_nat-IsDigit n);
}
