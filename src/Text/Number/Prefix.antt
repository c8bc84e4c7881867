-- ===== src/Text/Number/Prefix.antt =====
-- What `sscanf` reads by "%li" and "%lli": a number in decimal, with the prefix 0 in octal, and with
-- 0x in hexadecimal. What it prints by these is read back (`str2lusercache` of haarp/utils.cpp).
use haarpcache.Base.{
  ℕ, zero, suc, ◌+◌, ◌-◌, ◌*◌, ◌/◌, ◌%◌, ◌<◌, ◌≤◌, ℤ, pos, negsuc, ◌≡◌, refl, ap, ◌∙◌, ltb, leb,
  ◌==◌, if◌then◌else◌, false, ◌&&◌, ◌||◌, Bool-cases, [], ◌∷◌, ◌++◌, Option, none, some, inl, inr,
  arith, All,
}
use haarpcache.Text.{Bytes}
use haarpcache.Text.Number.{
  is_digit, nat_digits, print_nat, print, parse_nat, is_space, negated, positive, IsDigit,
  print_nat-IsDigit, parse_nat-print_nat, digit_bounds,
}

-- The value of a digit or a letter; 16 for what is no hexadecimal digit.
unfoldable pub digit_value : ℕ → ℕ
unfolding is_digit
digit_value c =
    if is_digit c
    then c - b'0'
    else if leb b'a' c && leb c b'f'
    then c - 87
    else if leb b'A' c && leb c b'F'
    then c - 55
    else 16

-- The digits of a base at the front of the string, read on from `acc`.
unfoldable pub scan_in : ℕ → ℕ → Bytes → ℕ
unfolding digit_value
scan_in base acc [] = acc
scan_in base acc (c ∷ s) =
    let rest = scan_in base (acc * base + digit_value c) s in
    if ltb (digit_value c) base then rest else acc

-- Behind a 0. Without a digit behind 0x the number is 0, as glibc reads it.
unfoldable pub after_zero : Bytes → ℕ
unfolding scan_in
after_zero [] = 0
after_zero (x ∷ s) = if x == b'x' || x == b'X' then scan_in 16 0 s else scan_in 8 0 (x ∷ s)

unfoldable pub parse_prefixed : Bytes → Option ℕ
unfolding after_zero parse_nat
parse_prefixed [] = none
parse_prefixed (c ∷ s) = if c == b'0' then some (after_zero s) else parse_nat (c ∷ s)

-- One number: `none` if there is none at the front, behind white space.
unfoldable pub scan_prefixed : Bytes → Option ℤ
unfolding parse_prefixed
scan_prefixed [] = none
scan_prefixed (c ∷ s) =
    let rest = scan_prefixed s in
    if is_space c
    then rest
    else if c == b'-'
    then negated (parse_prefixed s)
    else if c == b'+'
    then positive (parse_prefixed s)
    else positive (parse_prefixed (c ∷ s))

-- The first digit of a number that is not 0 is not 0.
record FirstDigit (s : Bytes) : Type 0 where
  first : ℕ
  others : Bytes
  whole : s ≡ first ∷ others
  not_zero : (first == b'0') ≡ false

nat_digits-FirstDigit : (f n : ℕ) → n < f → 1 ≤ n → FirstDigit (nat_digits f n)
unfolding nat_digits
nat_digits-FirstDigit zero n h k = absurd (omega arith)
nat_digits-FirstDigit (suc f) n h k = elim (Bool-cases (ltb n 10)) [
  | inl t ↦
      rw t (record { first = b'0' + n; others = []; whole = refl; not_zero = ground (arith, k) })
  | inr t ↦
      let d = nat_digits-FirstDigit f (n / 10) (ground (arith, t)) (ground (arith, t)) in
      rw t (record {
        first = d.first;
        others = d.others ++ ((b'0' + n % 10) ∷ []);
        whole = ap (λ s. s ++ ((b'0' + n % 10) ∷ [])) d.whole;
        not_zero = d.not_zero;
      })
]

parse_prefixed-nat : (s : Bytes) → FirstDigit s → parse_prefixed s ≡ parse_nat s
unfolding parse_prefixed
parse_prefixed-nat [] d = absurd (cc d.whole)
parse_prefixed-nat (c ∷ s) d =
    let e : (c == b'0') ≡ false =
      ap (λ k. k == b'0') (first_of c d.first s d.others d.whole) ∙ d.not_zero in
    rw e refl
  where
    first_of : (x y : ℕ) (s t : Bytes) → x ∷ s ≡ y ∷ t → x ≡ y
    first_of x y s t h = cc

parse_prefixed-print_nat : (n : ℕ) → parse_prefixed (print_nat n) ≡ some n
parse_prefixed-print_nat zero = unfold parse_prefixed print_nat nat_digits in refl
parse_prefixed-print_nat (suc n) =
    parse_prefixed-nat (print_nat (suc n))
      (unfold print_nat in nat_digits-FirstDigit (suc (suc n)) (suc n) (omega arith) (omega arith))
    ∙ parse_nat-print_nat (suc n)

scan_prefixed_digits : (s : Bytes) → All IsDigit s → scan_prefixed s ≡ positive (parse_prefixed s)
unfolding scan_prefixed parse_prefixed
scan_prefixed_digits [] h = refl
scan_prefixed_digits (c ∷ s) h = ground (arith, digit_bounds c h.0)

-- Every integer that is printed is read back.
pub scan_prefixed-print : (z : ℤ) → scan_prefixed (print z) ≡ some z
unfolding print scan_prefixed
scan_prefixed-print (pos n) =
    scan_prefixed_digits (print_nat n) (print_nat-IsDigit n)
    ∙ ap positive (parse_prefixed-print_nat n)
scan_prefixed-print (negsuc n) = ap negated (parse_prefixed-print_nat (suc n))
