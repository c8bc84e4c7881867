-- ===== src/Intervals/Append/Insert.antt =====
-- Lists of ranges with one node put in or changed.
use haarpcache.Base.{
  ℤ, pos, ◌+ℤ◌, ◌-ℤ◌, int_laws, [], ◌∷◌, ◌++◌, ◌≡◌, ◌↔◌, ◌⊎◌, inl, inr, refl, ap, ◌∙◌, All,
}
use haarpcache.Intervals.{Interval, Intervals, one, file_size_from, get_file_size}
use haarpcache.Intervals.Store.{swap_⊎, map_right, At, Stored, Apart, Disjoint}

Apart-symm : (s t : Interval) → Apart s t → Apart t s
Apart-symm s t (inl h) = inr h
Apart-symm s t (inr h) = inl h

pub Stored-insert :
    (bf af : Intervals) (n : Interval) (y p : ℤ)
    → Stored (bf ++ (n ∷ af)) y p ↔ (At n y p ⊎ Stored (bf ++ af) y p)
Stored-insert [] af n y p = (λ h. h, λ h. h)
Stored-insert (x ∷ bf) af n y p = (
  λ h. swap_⊎ (map_right (Stored-insert bf af n y p).0 h),
  λ h. map_right (Stored-insert bf af n y p).1 (swap_⊎ h),
)

pub All-insert {ℓ} :
    (P : Interval → Type ℓ) (bf af : Intervals) (n : Interval)
    → P n
    → All P (bf ++ af)
    → All P (bf ++ (n ∷ af))
All-insert P [] af n hn h = (hn, h)
All-insert P (x ∷ bf) af n hn h = (h.0, All-insert P bf af n hn h.1)

pub All-remove {ℓ} :
    (P : Interval → Type ℓ) (bf af : Intervals) (n : Interval)
    → All P (bf ++ (n ∷ af))
    → P n × All P (bf ++ af)
All-remove P [] af n h = h
All-remove P (x ∷ bf) af n h = let (hn, rest) = All-remove P bf af n h.1 in (hn, (h.0, rest))

pub Disjoint-insert :
    (bf af : Intervals) (n : Interval)
    → All (Apart n) (bf ++ af)
    → Disjoint (bf ++ af)
    → Disjoint (bf ++ (n ∷ af))
Disjoint-insert [] af n hn h = (hn, h)
Disjoint-insert (x ∷ bf) af n hn h =
    (All-insert (Apart x) bf af n (Apart-symm n x hn.0) h.0, Disjoint-insert bf af n hn.1 h.1)

pub Disjoint-remove :
    (bf af : Intervals) (n : Interval)
    → Disjoint (bf ++ (n ∷ af))
    → All (Apart n) (bf ++ af) × Disjoint (bf ++ af)
Disjoint-remove [] af n h = h
Disjoint-remove (x ∷ bf) af n h =
    let (xn, xrest) = All-remove (Apart x) bf af n h.0 in
    let (rest, d) = Disjoint-remove bf af n h.1 in ((Apart-symm x n xn, rest), (xrest, d))

file_size_from-shift :
    (re d : ℤ) (l : Intervals) → file_size_from (re +ℤ d) l ≡ file_size_from re l +ℤ d
unfolding file_size_from
file_size_from-shift re d [] = refl
file_size_from-shift re d (x ∷ xs) =
    ap (λ k. file_size_from k xs) (omega int_laws)
    ∙ file_size_from-shift (re +ℤ (x.b -ℤ x.a +ℤ one)) d xs

file_size_from-insert :
    (re : ℤ) (bf af : Intervals) (n : Interval)
    → file_size_from re (bf ++ (n ∷ af)) ≡ file_size_from re (bf ++ af) +ℤ (n.b -ℤ n.a +ℤ one)
unfolding file_size_from
file_size_from-insert re [] af n = file_size_from-shift re (n.b -ℤ n.a +ℤ one) af
file_size_from-insert re (x ∷ bf) af n = file_size_from-insert (re +ℤ (x.b -ℤ x.a +ℤ one)) bf af n

pub get_file_size-insert :
    (bf af : Intervals) (n : Interval)
    → get_file_size (bf ++ (n ∷ af)) ≡ get_file_size (bf ++ af) +ℤ (n.b -ℤ n.a +ℤ one)
unfolding get_file_size
get_file_size-insert = file_size_from-insert (pos 0)
