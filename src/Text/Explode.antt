-- ===== src/Text/Explode.antt =====
-- `stringexplode` and `stringexplodetrim` (haarp/utils.cpp): a string cut at each separator byte.
use haarpcache.Base.{
  ℕ, zero, suc, ◌<◌, ◌≡◌, refl, sym, ap, ◌∙◌, ltb, if◌then◌else◌, false, Bool-cases, Option-cases,
  List, [], ◌∷◌, ◌++◌, map, Option, none, some, inl, inr, arith, length, length-drop, take, drop,
  All, append-nil, append_assoc,
}
use mathlib.Core.Path.{ap₂}
use mathlib.Core.List.{map-append, map-id}
use haarpcache.Text.Find.{further-some}
use haarpcache.Text.{Bytes, further, contains, find_if, find_first_of, is_empty, trimstr}

-- `if (found > 0) results->push_back(str.substr(0, found))`, and the same test at the end.
abbrev pub emit : Bytes → List Bytes
emit p = if is_empty p then [] else p ∷ []

-- The loop. Each round drops at least one byte, so fuel above the length of the string is enough.
unfoldable pub explode_loop : ℕ → (Bytes → Bytes) → Bytes → Bytes → List Bytes → List Bytes
unfolding find_if contains
explode_loop zero keep sep str results = results
explode_loop (suc f) keep sep str results = elim (find_first_of sep str) [
  | none ↦ if ltb 0 (length str) then results ++ (keep str ∷ []) else results
  | some found ↦
      explode_loop f keep sep (drop (suc found) str)
        (if ltb 0 found then results ++ (keep (take found str) ∷ []) else results)
]

-- `stringexplode`: adds to `results`.
unfoldable pub stringexplode : Bytes → Bytes → List Bytes → List Bytes
unfolding explode_loop
stringexplode str sep = explode_loop (suc (length str)) (λ p. p) sep str

-- `stringexplodetrim`.
unfoldable pub stringexplodetrim : Bytes → Bytes → List Bytes → List Bytes
unfolding explode_loop
stringexplodetrim str sep = explode_loop (suc (length str)) trimstr sep str

-- The pieces between separators that are not empty, `cur` being what was read since the last one.
unfoldable pub pieces : Bytes → Bytes → Bytes → List Bytes
unfolding contains
pieces sep cur [] = emit cur
pieces sep cur (c ∷ s) =
    if contains sep c then emit cur ++ pieces sep [] s else pieces sep (cur ++ (c ∷ [])) s

further-none : (o : Option ℕ) → further o ≡ none → o ≡ none
further-none none h = refl
further-none (some i) h = cc

pieces-none : (sep cur s : Bytes) → find_first_of sep s ≡ none → pieces sep cur s ≡ emit (cur ++ s)
unfolding pieces find_if
pieces-none sep cur [] h = rw append-nil refl
pieces-none sep cur (c ∷ s) h = elim (Bool-cases (contains sep c)) [
  | inl t ↦ absurd (cc (rw t at h))
  | inr t ↦ rw t (
      pieces-none sep (cur ++ (c ∷ [])) s (further-none _ (rw t at h))
      ∙ ap emit (append_assoc cur (c ∷ []) s))
]

pieces-some :
    (sep cur s : Bytes) (i : ℕ)
    → find_first_of sep s ≡ some i
    → pieces sep cur s ≡ emit (cur ++ take i s) ++ pieces sep [] (drop (suc i) s)
unfolding pieces find_if
pieces-some sep cur [] i h = cc
pieces-some sep cur (c ∷ s) zero h = elim (Bool-cases (contains sep c)) [
  | inl t ↦ rw t (rw append-nil refl)
  | inr t ↦ let (j, _, e) = further-some _ zero (rw t at h) in absurd (omega arith)
]
pieces-some sep cur (c ∷ s) (suc i) h = elim (Bool-cases (contains sep c)) [
  | inl t ↦ absurd (cc (rw t at h))
  | inr t ↦
      let (j, found, e) = further-some _ (suc i) (rw t at h) in
      rw t (
        pieces-some sep (cur ++ (c ∷ [])) s i (found ∙ ap some (omega arith))
        ∙ ap (λ k. emit k ++ pieces sep [] (drop (suc i) s)) (append_assoc cur (c ∷ []) (take i s)))
]

module _ (keep : Bytes → Bytes) (sep : Bytes) where
  emit-rest :
      (s : Bytes) (results : List Bytes)
      → (if ltb 0 (length s) then results ++ (keep s ∷ []) else results)
        ≡ results ++ map keep (emit s)
  emit-rest [] results = rw append-nil refl
  emit-rest (c ∷ s) results = ground arith

  emit-piece :
      (s : Bytes) (i : ℕ) (results : List Bytes)
      → find_first_of sep s ≡ some i
      → (if ltb 0 i then results ++ (keep (take i s) ∷ []) else results)
        ≡ results ++ map keep (emit (take i s))
  unfolding find_if
  emit-piece [] i results h = cc
  emit-piece (c ∷ s) zero results h = rw append-nil refl
  emit-piece (c ∷ s) (suc i) results h = ground arith

  shorter :
      (s : Bytes) (i f : ℕ)
      → find_first_of sep s ≡ some i
      → length s < suc f
      → length (drop (suc i) s) < f
  unfolding find_if
  shorter [] i f h le = cc
  shorter (c ∷ s) i f h le = omega (arith, length-drop i s)

  explode_loop-pieces :
      (f : ℕ) (str : Bytes) (results : List Bytes)
      → length str < f
      → explode_loop f keep sep str results ≡ results ++ map keep (pieces sep [] str)
  unfolding explode_loop
  explode_loop-pieces zero str results h = absurd (omega arith)
  explode_loop-pieces (suc f) str results h = elim (Option-cases (find_first_of sep str)) [
    | inl e ↦ rw (e, explode_loop) (rw (pieces-none sep [] str e) (emit-rest str results))
    | inr (i, e) ↦
        rw (e, explode_loop)
          (explode_loop-pieces f (drop (suc i) str) _ (shorter str i f e h)
            ∙ rw (pieces-some sep [] str i e, emit-piece str i results e)
                (rw (map-append, append_assoc) refl))
  ]

-- `stringexplode` adds the pieces of the string that are not empty, whatever its length.
pub stringexplode-pieces :
    (str sep : Bytes) (results : List Bytes)
    → stringexplode str sep results ≡ results ++ pieces sep [] str
unfolding stringexplode
stringexplode-pieces str sep results =
    explode_loop-pieces (λ p. p) sep (suc (length str)) str results (omega arith)
    ∙ ap (◌++◌ results) (map-id (pieces sep [] str))

-- `stringexplodetrim` adds them trimmed.
pub stringexplodetrim-pieces :
    (str sep : Bytes) (results : List Bytes)
    → stringexplodetrim str sep results ≡ results ++ map trimstr (pieces sep [] str)
unfolding stringexplodetrim
stringexplodetrim-pieces str sep results =
    explode_loop-pieces trimstr sep (suc (length str)) str results (omega arith)

-- Strings joined by a separator byte.
abbrev pub join : ℕ → List Bytes → Bytes
join c [] = []
join c (p ∷ []) = p
join c (p ∷ q ∷ ps) = p ++ (c ∷ join c (q ∷ ps))

-- What follows the first part of a join.
abbrev pub tails : ℕ → List Bytes → Bytes
tails c [] = []
tails c (p ∷ ps) = c ∷ (p ++ tails c ps)

pub join-cons : (c : ℕ) (p : Bytes) (ps : List Bytes) → join c (p ∷ ps) ≡ p ++ tails c ps
join-cons c p [] = sym (append-nil p)
join-cons c p (q ∷ ps) = ap (λ k. p ++ (c ∷ k)) (join-cons c q ps)

pub contains-append :
    (c : ℕ) (p q : Bytes)
    → contains p c ≡ false
    → contains q c ≡ false
    → contains (p ++ q) c ≡ false
unfolding contains
contains-append c [] q h k = k
contains-append c (x ∷ p) q h k = ground (arith, contains-append c p q)

pub is_empty-append : (p q : Bytes) → is_empty p ≡ false → is_empty (p ++ q) ≡ false
is_empty-append [] q h = cc
is_empty-append (x ∷ p) q h = refl

-- A string that a join by `c` can be cut into again: not empty, and without `c`.
pub record IsField (c : ℕ) (p : Bytes) : Type 0 where
  pub filled : is_empty p ≡ false
  pub free : contains p c ≡ false

pub pieces-free :
    (c : ℕ) (cur p rest : Bytes)
    → contains p c ≡ false
    → pieces (c ∷ []) cur (p ++ rest) ≡ pieces (c ∷ []) (cur ++ p) rest
unfolding pieces contains
pieces-free c cur [] rest h = rw append-nil refl
pieces-free c cur (x ∷ p) rest h =
    ground (arith, pieces-free c (cur ++ (x ∷ [])) p rest, append_assoc cur (x ∷ []) p)

pub emit-filled : (p : Bytes) → is_empty p ≡ false → emit p ≡ p ∷ []
emit-filled p h = rw h

pub pieces-sep :
    (c : ℕ) (cur s : Bytes) → pieces (c ∷ []) cur (c ∷ s) ≡ emit cur ++ pieces (c ∷ []) [] s
unfolding pieces
pieces-sep c cur s = ground arith

pieces-join : (c : ℕ) (ps : List Bytes) → All (IsField c) ps → pieces (c ∷ []) [] (join c ps) ≡ ps
unfolding pieces
pieces-join c [] h = refl
pieces-join c (p ∷ []) h =
    ap (pieces (c ∷ []) []) (sym (append-nil p))
    ∙ pieces-free c [] p [] h.0.free
    ∙ emit-filled p h.0.filled
pieces-join c (p ∷ q ∷ ps) h =
    pieces-free c [] p (c ∷ join c (q ∷ ps)) h.0.free
    ∙ pieces-sep c p (join c (q ∷ ps))
    ∙ ap₂ ◌++◌ (emit-filled p h.0.filled) (pieces-join c (q ∷ ps) h.1)

-- Cutting a join gives its parts back, if none is empty or holds the separator.
pub stringexplode-join :
    (c : ℕ) (ps : List Bytes) → All (IsField c) ps → stringexplode (join c ps) (c ∷ []) [] ≡ ps
stringexplode-join c ps h = stringexplode-pieces (join c ps) (c ∷ []) [] ∙ pieces-join c ps h
