-- ===== src/Text/Find.antt =====
-- What the searches of `std::string` that the source makes find.
use haarpcache.Base.{
  ℕ, suc, ◌+◌, ◌<◌, ◌≤◌, ◌≡◌, refl, sym, ap, ◌∙◌, ◌==◌, leb, if◌then◌else◌, Bool, true, false,
  Bool-cases, [], ◌∷◌, ◌++◌, Option, none, some, inl, inr, arith, length, All,
}
use haarpcache.Text.{Bytes, contains, find, find_if, is_prefix, further}

-- The first byte that passes the test, behind others that do not.
pub find_if-append :
    (p : ℕ → Bool) (xs : Bytes) (c : ℕ) (s : Bytes)
    → All (λ x. p x ≡ false) xs
    → p c ≡ true
    → find_if p (xs ++ (c ∷ s)) ≡ some (length xs)
unfolding find_if
find_if-append p [] c s h t = rw t refl
find_if-append p (x ∷ xs) c s h t = rw (h.0, find_if-append p xs c s h.1 t) refl

-- No byte passes the test.
pub find_if-none : (p : ℕ → Bool) (s : Bytes) → All (λ c. p c ≡ false) s → find_if p s ≡ none
unfolding find_if
find_if-none p [] h = refl
find_if-none p (c ∷ s) h = rw (h.0, find_if-none p s h.1) refl

pub contains-tail :
    (x c : ℕ) (s : Bytes) → contains (x ∷ s) c ≡ false → ((x == c) ≡ false) × (contains s c ≡ false)
unfolding contains
contains-tail x c s h = ground arith

pub is_prefix_self : (part more : Bytes) → is_prefix part (part ++ more) ≡ true
unfolding is_prefix
is_prefix_self [] more = refl
is_prefix_self (x ∷ part) more = ground (arith, is_prefix_self part more)

-- A part that stands in front is found there, and otherwise where it is found behind the first byte.
pub find_here :
    (part : Bytes) (c : ℕ) (s : Bytes) → is_prefix part (c ∷ s) ≡ true → find part (c ∷ s) ≡ some 0
unfolding find
find_here part c s h = rw h refl

pub find-further :
    (part : Bytes) (c : ℕ) (s : Bytes)
    → is_prefix part (c ∷ s) ≡ false
    → find part (c ∷ s) ≡ further (find part s)
unfolding find
find-further part c s h = rw h refl

is_prefix_apart :
    (c x : ℕ) (part s : Bytes) → (x == c) ≡ false → is_prefix (c ∷ part) (x ∷ s) ≡ false
unfolding is_prefix
is_prefix_apart c x part s h = ground arith

-- A part is found behind a string without its first byte.
pub find-behind :
    (c : ℕ) (part line more : Bytes)
    → contains line c ≡ false
    → find (c ∷ part) (line ++ ((c ∷ part) ++ more)) ≡ some (length line)
find-behind c part [] more h =
    find_here (c ∷ part) c (part ++ more) (is_prefix_self (c ∷ part) more)
find-behind c part (x ∷ line) more h =
    let (apart, free) = contains-tail x c line h in
    find-further (c ∷ part) x _ (is_prefix_apart c x part _ apart)
    ∙ ap further (find-behind c part line more free)

-- A part that is in front has all its bytes in the string.
is_prefix-contains :
    (c : ℕ) (part s : Bytes)
    → contains s c ≡ false
    → contains part c ≡ true
    → is_prefix part s ≡ false
unfolding is_prefix contains
is_prefix-contains c [] s h k = absurd cc
is_prefix-contains c (x ∷ part) [] h k = refl
is_prefix-contains c (x ∷ part) (y ∷ s) h k = ground (arith, is_prefix-contains c part s)

-- No part with a byte that the string does not have is found.
pub find-none :
    (c : ℕ) (part s : Bytes) → contains s c ≡ false → contains part c ≡ true → find part s ≡ none
unfolding find contains
find-none c [] [] h k = absurd cc
find-none c (x ∷ part) [] h k = refl
find-none c part (y ∷ s) h k =
    let (apart, free) = contains-tail y c s h in
    rw (is_prefix-contains c part (y ∷ s) h k, find-none c part s free k) refl

is_prefix-short : (part s : Bytes) → length s < length part → is_prefix part s ≡ false
unfolding is_prefix
is_prefix-short [] s h = absurd (omega arith)
is_prefix-short (x ∷ part) [] h = refl
is_prefix-short (x ∷ part) (y ∷ s) h = ground (arith, is_prefix-short part s)

find-short : (part s : Bytes) → length s < length part → find part s ≡ none
unfolding find
find-short [] s h = absurd (omega arith)
find-short (x ∷ part) [] h = refl
find-short (x ∷ part) (y ∷ s) h =
    rw (is_prefix-short (x ∷ part) (y ∷ s) h, find-short (x ∷ part) s (omega arith)) refl

is_prefix-append :
    (part s more : Bytes) → length part ≤ length s → is_prefix part (s ++ more) ≡ is_prefix part s
unfolding is_prefix
is_prefix-append [] s more h = refl
is_prefix-append (x ∷ part) [] more h = absurd (omega arith)
is_prefix-append (x ∷ part) (y ∷ s) more h = ground (arith, is_prefix-append part s more)

some_eq : (a b : ℕ) → some a ≡ some b → a ≡ b
some_eq a b h = cc

pub further-some :
    (o : Option ℕ) (i : ℕ) → further o ≡ some i → (j : ℕ) × (o ≡ some j) × (suc j ≡ i)
further-some none i h = cc
further-some (some j) i h = (j, refl, cc)

is_prefix-front :
    (part s more : Bytes) → is_prefix part (s ++ more) ≡ false → is_prefix part s ≡ false
is_prefix-front part s more h = elim (Bool-cases (leb (length part) (length s))) [
  | inl t ↦ sym (is_prefix-append part s more (ground arith)) ∙ h
  | inr t ↦ is_prefix-short part s (ground arith)
]

further_if :
    (j m n i : ℕ)
    → suc j ≡ i
    → further (if leb (j + m) n then some j else none)
      ≡ (if leb (i + m) (suc n) then some i else none)
further_if j m n i h = elim (Bool-cases (leb (j + m) n)) [
  | inl t ↦ rw t (ground arith)
  | inr t ↦ rw t (ground arith)
]

-- Of a string that goes on: what is found first in it is found in its front part if that has the
-- whole of it, and nothing is found there otherwise.
pub find-append :
    (part s more : Bytes) (i : ℕ)
    → 0 < length part
    → find part (s ++ more) ≡ some i
    → find part s ≡ (if leb (i + length part) (length s) then some i else none)
find-append part [] more i h e = rw (find-short part [] h) (ground arith)
find-append part (y ∷ s) more i h e = elim (Bool-cases (is_prefix part (y ∷ (s ++ more)))) [
  | inl t ↦
      let start = some_eq 0 i (sym (find_here part y (s ++ more) t) ∙ e) in
      elim (Bool-cases (leb (length part) (suc (length s)))) [
        | inl u ↦
            find_here part y s (sym (is_prefix-append part (y ∷ s) more (ground arith)) ∙ t)
            ∙ ground (arith, start)
        | inr u ↦ find-short part (y ∷ s) (ground arith) ∙ ground arith
      ]
  | inr t ↦
      let (j, found, next) = further-some _ i (sym (find-further part y (s ++ more) t) ∙ e) in
      find-further part y s (is_prefix-front part (y ∷ s) more t)
      ∙ ap further (find-append part s more j h found)
      ∙ further_if j (length part) (length s) i next
]

further-none : (o : Option ℕ) → further o ≡ none → o ≡ none
further-none none h = refl
further-none (some i) h = cc

-- What is not found in a string is not found in its front part.
pub find-front_none :
    (part s more : Bytes) → 0 < length part → find part (s ++ more) ≡ none → find part s ≡ none
find-front_none part [] more h e = find-short part [] h
find-front_none part (y ∷ s) more h e = elim (Bool-cases (is_prefix part (y ∷ (s ++ more)))) [
  | inl t ↦ absurd (cc (find_here part y (s ++ more) t))
  | inr t ↦
      find-further part y s (is_prefix-front part (y ∷ s) more t)
      ∙ ap further (
          find-front_none part s more h
            (further-none _ (sym (find-further part y (s ++ more) t) ∙ e)))
]
