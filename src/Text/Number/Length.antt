-- ===== src/Text/Number/Length.antt =====
-- How many digits `itoa` (haarp/utils.cpp) prints, and the sign of what `atoi` reads.
use haarpcache.Base.{
  ℕ, zero, suc, ◌+◌, ◌/◌, ◌%◌, ◌<◌, ◌≤◌, ◌≡◌, refl, ap, ◌∙◌, ltb, Bool-cases, Option-cases, pos, [],
  ◌∷◌, inl, inr, arith, All, length, length-append,
}
use haarpcache.Text.{Bytes}
use haarpcache.Text.Number.{
  nat_digits, print_nat, parse_nat, scan, atoll, positive, scan_of_digits, IsDigit,
}

-- A number below ten has one digit, and the others have more.
length-nat_digits : (f n : ℕ) → n < f → 1 ≤ length (nat_digits f n)
unfolding nat_digits
length-nat_digits zero n h = absurd (omega arith)
length-nat_digits (suc f) n h = elim (Bool-cases (ltb n 10)) [
  | inl t ↦ rw t (omega arith)
  | inr t ↦ rw t (omega (arith, length-append (nat_digits f (n / 10)) ((b'0' + n % 10) ∷ [])))
]

pub print_nat_one : (n : ℕ) → n < 10 → print_nat n ≡ (b'0' + n) ∷ []
unfolding print_nat nat_digits
print_nat_one n h = ground arith

pub length-print_nat_large : (n : ℕ) → 10 ≤ n → 2 ≤ length (print_nat n)
unfolding print_nat nat_digits
length-print_nat_large n h = elim (Bool-cases (ltb n 10)) [
  | inl t ↦ absurd (ground arith)
  | inr t ↦ rw t (
      omega (
        arith,
        length-append (nat_digits n (n / 10)) ((b'0' + n % 10) ∷ []),
        length-nat_digits n (n / 10) (omega arith),
      ))
]

-- Digits are read as a number that is not negative.
pub atoll-IsDigit : (s : Bytes) → All IsDigit s → (n : ℕ) × (atoll s ≡ pos n)
unfolding atoll scan
atoll-IsDigit [] h = (0, refl)
atoll-IsDigit (c ∷ s) h = elim (Option-cases (parse_nat (c ∷ s))) [
  | inl e ↦ (0, rw (scan_of_digits (c ∷ s) h refl ∙ ap positive e, atoll) refl)
  | inr (n, e) ↦ (n, rw (scan_of_digits (c ∷ s) h refl ∙ ap positive e, atoll) refl)
]
