-- ===== src/Text/Directory/Form.antt =====
-- What `ConvertChar` (haarp/utils.cpp) returns: a digit as a directory, and in it one more
-- directory that is named by digits.
use haarpcache.Base.{
  ℕ, zero, suc, ◌+◌, ◌-◌, ◌%◌, ◌^◌, ◌<◌, ◌≤◌, ◌≡◌, ◌⊎◌, inl, inr, refl, sym, subst, ◌∙◌, ltb, true,
  Bool-cases, pos, ◌+ℤ◌, [], ◌∷◌, ◌++◌, Option, none, some, length, drop, arith, All, length-drop,
}
use haarpcache.Text.{Bytes}
use haarpcache.Text.Number.{print, print_nat, atoll, IsDigit, print_nat-IsDigit}
use haarpcache.Text.Number.Length.{length-print_nat_large, print_nat_one, atoll-IsDigit}
use haarpcache.Text.Directory.{
  as_int, name_sum, last_three, second_digit, directory_of, convert_char,
}

-- A digit or the minus sign.
abbrev pub IsMark : ℕ → Type 0
IsMark c = IsDigit c ⊎ (c ≡ b'-')

-- The result for a sum of the numbers, as an `int`: below ten there is none; else it is a digit, a
-- slash, a digit or a minus sign, an underscore, and one or two digits.
pub data IsDirectory (n : ℕ) : Option Bytes → Type 0 where
  thrown : n < 10 → IsDirectory n none
  named :
      10 ≤ n
      → (u c : ℕ) (t : Bytes) → IsDigit u
      → IsMark c
      → All IsDigit t
      → 1 ≤ length t
      → length t ≤ 2
      → IsDirectory n (some (u ∷ (b'/' ∷ (c ∷ (b'_' ∷ t)))))

All-drop : (n : ℕ) (s : Bytes) → All IsDigit s → All IsDigit (drop n s)
All-drop zero s h = h
All-drop (suc n) [] h = tt
All-drop (suc n) (x ∷ s) h = All-drop n s h.1

-- The second digit of a number.
record SecondDigit (s : Bytes) : Type 0 where
  digit : ℕ
  is_second : second_digit s ≡ digit ∷ []
  valid : IsDigit digit

second_digit_lem : (s : Bytes) → All IsDigit s → 1 ≤ length s → SecondDigit s
second_digit_lem [] h k = absurd (omega (arith, k))
second_digit_lem (x ∷ []) h k = record { digit = x; is_second = refl; valid = h.0 }
second_digit_lem (x ∷ y ∷ s) h k = record { digit = y; is_second = ground arith; valid = h.1.0 }

length-print_nat : (n : ℕ) → 1 ≤ length (print_nat n)
length-print_nat n = elim (Bool-cases (ltb n 10)) [
  | inl t ↦ subst (λ s. 1 ≤ length s) (sym (print_nat_one n (ground (arith, t)))) (omega arith)
  | inr t ↦ omega (arith, length-print_nat_large n (ground (arith, t)))
]

pos_sum : (a b : ℕ) → pos a +ℤ pos b ≡ pos (a + b)
unfolding ◌+ℤ◌
pos_sum a b = ground arith

-- The first directory is a digit.
upper_digit :
    (v w : Bytes) → All IsDigit v → All IsDigit w → SecondDigit (print (atoll v +ℤ atoll w))
unfolding print
upper_digit v w hv hw =
    let (a, ea) = atoll-IsDigit v hv in
    let (b, eb) = atoll-IsDigit w hw in
    let e : atoll v +ℤ atoll w ≡ pos (a + b) = rw (ea, eb) (pos_sum a b) in
    subst (λ z. SecondDigit (print z)) (sym e)
      (second_digit_lem (print_nat (a + b)) (print_nat-IsDigit (a + b)) (length-print_nat (a + b)))

module _ (n : ℕ) (large : 10 ≤ n) where
  directory_of-IsDirectory :
      (c x : ℕ) (s : Bytes)
      → IsMark c
      → IsDigit x
      → All IsDigit s
      → length s ≤ 1
      → IsDirectory n (directory_of (c ∷ (x ∷ s)))
  unfolding directory_of
  directory_of-IsDirectory c x [] hc hx hs k =
      let d = upper_digit (x ∷ []) [] (hx, tt) tt in
      subst (λ u. IsDirectory n (some (u ++ (b'/' ∷ (c ∷ (b'_' ∷ (x ∷ []))))))) (sym d.is_second)
        (named large d.digit c (x ∷ []) d.valid hc (hx, tt) (omega arith) (omega arith))
  directory_of-IsDirectory c x (y ∷ []) hc hx hs k =
      let d = upper_digit (x ∷ []) (y ∷ []) (hx, tt) hs in
      subst (λ u. IsDirectory n (some (u ++ (b'/' ∷ (c ∷ (b'_' ∷ (x ∷ (y ∷ []))))))))
        (sym d.is_second)
        (named large d.digit c (x ∷ (y ∷ [])) d.valid hc (hx, hs) (omega arith) (omega arith))
  directory_of-IsDirectory c x (y ∷ z ∷ s) hc hx hs k = absurd (omega (arith, k))

  three_digits-IsDirectory :
      (s : Bytes) → All IsDigit s → length s ≡ 3 → IsDirectory n (directory_of s)
  three_digits-IsDirectory [] h k = absurd (omega (arith, k))
  three_digits-IsDirectory (c ∷ []) h k = absurd (omega (arith, k))
  three_digits-IsDirectory (c ∷ x ∷ s) h k =
      directory_of-IsDirectory c x s (inl h.0) h.1.0 h.1.1 (omega (arith, k))

  last_three-IsDirectory :
      (c : ℕ) (s : Bytes)
      → IsMark c
      → All IsDigit s
      → 1 ≤ length s
      → IsDirectory n (directory_of (last_three (c ∷ s)))
  last_three-IsDirectory c [] hc hs k = absurd (omega (arith, k))
  last_three-IsDirectory c (x ∷ s) hc hs k = elim (Bool-cases (ltb 3 (suc (suc (length s))))) [
    | inl t ↦
        let e : suc (length s - 2) ≡ suc (suc (length s)) - 3 = ground (arith, t) in
        rw t (
          subst (λ i. IsDirectory n (directory_of (drop i (c ∷ (x ∷ s))))) e
            (three_digits-IsDirectory (drop (length s - 2) (x ∷ s))
              (All-drop (length s - 2) (x ∷ s) hs)
              (length-drop (length s - 2) (x ∷ s) ∙ ground (arith, t))))
    | inr t ↦ rw t (directory_of-IsDirectory c x s hc hs.0 hs.1 (ground (arith, t)))
  ]

  digits-IsDirectory :
      (s : Bytes) → All IsDigit s → 2 ≤ length s → IsDirectory n (directory_of (last_three s))
  digits-IsDirectory [] h k = absurd (omega (arith, k))
  digits-IsDirectory (c ∷ s) h k = last_three-IsDirectory c s (inl h.0) h.1 (omega (arith, k))

small_sum : (n : ℕ) → n < 10 → IsDirectory n (directory_of (last_three (print_nat n)))
unfolding directory_of
small_sum n h =
    subst (λ s. IsDirectory n (directory_of (last_three s))) (sym (print_nat_one n h)) (thrown h)

int_lem : (n : ℕ) → IsDirectory (n % 2 ^ 32) (directory_of (last_three (print (as_int n))))
unfolding as_int print
int_lem n = elim (Bool-cases (ltb (n % 2 ^ 32) 10)) [
  | inl t ↦
      let small : ltb (n % 2 ^ 32) (2 ^ 31) ≡ true = ground (arith, t) in
      rw small (small_sum (n % 2 ^ 32) (ground (arith, t)))
  | inr t ↦ elim (Bool-cases (ltb (n % 2 ^ 32) (2 ^ 31))) [
    | inl u ↦ rw u (
        digits-IsDirectory (n % 2 ^ 32) (ground (arith, t)) (print_nat (n % 2 ^ 32))
          (print_nat-IsDigit (n % 2 ^ 32))
          (length-print_nat_large (n % 2 ^ 32) (ground (arith, t))))
    | inr u ↦ rw u (
        last_three-IsDirectory (n % 2 ^ 32) (ground (arith, t)) b'-'
          (print_nat (suc (2 ^ 32 - (n % 2 ^ 32 + 1)))) (inr refl)
          (print_nat-IsDigit (suc (2 ^ 32 - (n % 2 ^ 32 + 1))))
          (length-print_nat (suc (2 ^ 32 - (n % 2 ^ 32 + 1)))))
  ]
]

-- `ConvertChar` throws if the sum of the numbers is below ten as an `int`; else it returns a digit, a
-- slash, a digit or a minus sign, an underscore and one or two digits.
pub convert_char-IsDirectory : (s : Bytes) → IsDirectory (name_sum s % 2 ^ 32) (convert_char s)
unfolding convert_char
convert_char-IsDirectory s = int_lem (name_sum s)
