-- ===== src/Http/Hex.antt =====
-- Hexadecimal numbers, which `sscanf` ("%x") reads in haarp/httphandler.cpp, over upper-case digits.
use haarpcache.Base.{
  ℕ, zero, suc, ◌+◌, ◌-◌, ◌*◌, ◌/◌, ◌%◌, ◌<◌, ◌≤◌, ◌≡◌, refl, ◌∙◌, ltb, leb, ◌==◌, if◌then◌else◌,
  Bool, true, false, ◌&&◌, subst, Bool-cases, [], ◌∷◌, ◌++◌, inl, inr, arith, All, All-append,
  length, length-append,
}
use haarpcache.Text.{to_upper, Bytes, codes, contains}

-- "0123456789ABCDEF".
abbrev pub hex_set : Bytes
hex_set = codes "0123456789ABCDEF"

unfoldable pub hex_value : ℕ → ℕ
hex_value c = if leb c b'9' then c - b'0' else c - b'A' + 10

-- `sscanf( s, "%x", &csize )` of a string of digits, read on from `acc`.
unfoldable pub scan_hex : ℕ → Bytes → ℕ
unfolding hex_value
scan_hex acc [] = acc
scan_hex acc (c ∷ s) = scan_hex (acc * 16 + hex_value c) s

unfoldable pub hex_digit : ℕ → ℕ
hex_digit d = if ltb d 10 then b'0' + d else b'A' + (d - 10)

-- The digits of a number, the last one first found; `fuel` above the number is enough.
unfoldable pub hex_digits : ℕ → ℕ → Bytes
unfolding hex_digit
hex_digits zero n = []
hex_digits (suc fuel) n =
    let rest = hex_digits fuel (n / 16) in
    if ltb n 16 then hex_digit n ∷ [] else rest ++ (hex_digit (n % 16) ∷ [])

unfoldable pub print_hex : ℕ → Bytes
unfolding hex_digits
print_hex n = hex_digits (suc n) n

abbrev pub IsHex : ℕ → Type 0
IsHex c = contains hex_set c ≡ true

and-left : (a b : Bool) → (a && b) ≡ true → a ≡ true
and-left true b h = refl
and-left false b h = h

and-right : (a b : Bool) → (a && b) ≡ true → b ≡ true
and-right true b h = h
and-right false b h = absurd (cc)

all_below : (ℕ → Bool) → ℕ → Bool
all_below p zero = true
all_below p (suc n) = p n && all_below p n

below : (p : ℕ → Bool) (n d : ℕ) → all_below p n ≡ true → d < n → p d ≡ true
unfolding all_below
below p zero d h lt = absurd (omega arith)
below p (suc n) d h lt = elim (Bool-cases (d == n)) [
  | inl t ↦ subst (λ k. p k ≡ true) (ground arith) (and-left (p n) (all_below p n) h)
  | inr t ↦ below p n d (and-right (p n) (all_below p n) h) (ground arith)
]

pub hex_digit-IsHex : (d : ℕ) → d < 16 → IsHex (hex_digit d)
unfolding hex_digit contains all_below
hex_digit-IsHex d h = below (λ k. contains hex_set (hex_digit k)) 16 d refl h

hex_value-hex_digit : (d : ℕ) → d < 16 → hex_value (hex_digit d) ≡ d
unfolding hex_digit hex_value
hex_value-hex_digit d h = ground arith

-- What holds of every digit holds of all that are printed.
pub All-hex_digits {κ} :
    (P : ℕ → Type κ) → ((d : ℕ) → d < 16 → P (hex_digit d)) → (f n : ℕ) → All P (hex_digits f n)
unfolding hex_digits
All-hex_digits P h zero n = tt
All-hex_digits P h (suc f) n = elim (Bool-cases (ltb n 16)) [
  | inl t ↦ rw t (h n (ground arith), tt)
  | inr t ↦ rw t (
      All-append P (hex_digits f (n / 16)) (hex_digit (n % 16) ∷ []) (All-hex_digits P h f (n / 16))
        (h (n % 16) (omega arith), tt))
]

pub to_upper-hex_digit : (d : ℕ) → d < 16 → to_upper (hex_digit d) ≡ hex_digit d
unfolding hex_digit to_upper
to_upper-hex_digit d h = ground arith

scan_hex-concat :
    (acc : ℕ) (s : Bytes) (d : ℕ)
    → d < 16
    → scan_hex acc (s ++ (hex_digit d ∷ [])) ≡ scan_hex acc s * 16 + d
unfolding scan_hex
scan_hex-concat acc [] d lt = omega (arith, hex_value-hex_digit d lt)
scan_hex-concat acc (c ∷ s) d lt = scan_hex-concat (acc * 16 + hex_value c) s d lt

pub scan_hex-hex_digits : (f n : ℕ) → n < f → scan_hex 0 (hex_digits f n) ≡ n
unfolding hex_digits
scan_hex-hex_digits zero n h = absurd (omega arith)
scan_hex-hex_digits (suc f) n h = elim (Bool-cases (ltb n 16)) [
  | inl t ↦ rw t (unfold scan_hex in omega (arith, hex_value-hex_digit n (ground arith)))
  | inr t ↦ rw t (
      scan_hex-concat 0 (hex_digits f (n / 16)) (n % 16) (omega arith)
      ∙ rw (scan_hex-hex_digits f (n / 16) (ground arith)) (omega arith))
]

-- 16 ^ k.
abbrev pub scale : ℕ → ℕ
scale zero = 1
scale (suc k) = 16 * scale k

-- `n` needs at most `k` digits, and at least one.
pub length-hex_digits :
    (k f n : ℕ)
    → n < f
    → n < scale (suc k)
    → (0 < length (hex_digits f n)) × (length (hex_digits f n) ≤ suc k)
unfolding hex_digits
length-hex_digits k zero n h lt = absurd (omega arith)
length-hex_digits zero (suc f) n h lt =
    let t : ltb n 16 ≡ true = ground arith in rw t (omega arith, omega arith)
length-hex_digits (suc k) (suc f) n h lt = elim (Bool-cases (ltb n 16)) [
  | inl t ↦ rw t (omega arith, omega arith)
  | inr t ↦
      let (low, high) = length-hex_digits k f (n / 16) (ground arith) (omega arith) in
      rw t (
        omega (arith, length-append (hex_digits f (n / 16)) (hex_digit (n % 16) ∷ [])),
        omega (arith, length-append (hex_digits f (n / 16)) (hex_digit (n % 16) ∷ []), high),
      )
]
