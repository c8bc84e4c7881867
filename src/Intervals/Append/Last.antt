-- ===== src/Intervals/Append/Last.antt =====
-- `getlastnode` (haarp/utils.cpp) finds the first node with the greatest position.
use haarpcache.Base.{
  ℤ, ◌+ℤ◌, ◌-ℤ◌, ltb_ℤ-cases, ◌≤ℤ◌, ◌<ℤ◌, [], ◌∷◌, ◌++◌, ◌≡◌, refl, ap, subst, inl, inr, arith, All,
  All-append, All-map, append-nil, append_assoc,
}
use haarpcache.Intervals.{
  Interval, Intervals, Cursor, one, last_node_from, get_last_node, get_point_end,
}

abbrev pub Before : Interval → Interval → Type 0
Before n s = s.position <ℤ n.position

abbrev pub Upto : Interval → Interval → Type 0
Upto n s = s.position ≤ℤ n.position

-- The cursor splits the list at its first node with the greatest position.
pub record IsLast (l : Intervals) (c : Cursor) : Type 0 where
  pub splits : l ≡ c.before ++ (c.node ∷ c.after)
  pub before : All (Before c.node) c.before
  pub after : All (Upto c.node) c.after

last_node_from-IsLast :
    (bf : Intervals) (best : Interval) (since xs : Intervals)
    → All (Before best) bf
    → All (Upto best) since
    → IsLast (bf ++ (best ∷ (since ++ xs))) (last_node_from bf best since xs)
unfolding last_node_from
last_node_from-IsLast bf best since [] hb hs = record {
  splits = rw append-nil;
  before = hb;
  after = hs;
}
last_node_from-IsLast bf best since (x ∷ xs) hb hs = elim (ltb_ℤ-cases best.position x.position) [
  | inl (t, lt) ↦ rw t (
      subst (λ k. IsLast k (last_node_from (bf ++ (best ∷ since)) x [] xs))
        (append_assoc bf (best ∷ since) (x ∷ xs))
        (last_node_from-IsLast (bf ++ (best ∷ since)) x [] xs
          (All-append (Before x) bf (best ∷ since) (All-map (λ s h. omega arith) bf hb)
            (lt, All-map (λ s h. omega arith) since hs))
          tt))
  | inr (t, ge) ↦ rw t (
      subst (λ k. IsLast k (last_node_from bf best (since ++ (x ∷ [])) xs))
        (ap (λ k. bf ++ (best ∷ k)) (append_assoc since (x ∷ []) xs))
        (last_node_from-IsLast bf best (since ++ (x ∷ [])) xs hb
          (All-append (Upto best) since (x ∷ []) hs (ge, tt))))
]

pub get_last_node-IsLast : (x : Interval) (xs : Intervals) → IsLast (x ∷ xs) (get_last_node x xs)
unfolding get_last_node
get_last_node-IsLast x xs = last_node_from-IsLast [] x [] xs tt tt

-- Where a node on disk ends.
abbrev pub end_of : Interval → ℤ
end_of s = s.position +ℤ s.b -ℤ s.a +ℤ one

stays :
    (bf : Intervals) (best : Interval) (since xs : Intervals)
    → All (Upto best) xs
    → (last_node_from bf best since xs).node ≡ best
unfolding last_node_from
stays bf best since [] h = refl
stays bf best since (x ∷ xs) h = elim (ltb_ℤ-cases best.position x.position) [
  | inl (t, lt) ↦ absurd (omega (arith, h.0))
  | inr (t, _) ↦ rw t (stays bf best (since ++ (x ∷ [])) xs h.1)
]

reaches :
    (pre : Intervals) (best : Interval) (since bf : Intervals) (n : Interval) (af : Intervals)
    → best.position <ℤ n.position
    → All (Before n) bf
    → All (Upto n) af
    → (last_node_from pre best since (bf ++ (n ∷ af))).node ≡ n
unfolding last_node_from
reaches pre best since [] n af lt hb ha = elim (ltb_ℤ-cases best.position n.position) [
  | inl (t, _) ↦ rw t (stays (pre ++ (best ∷ since)) n [] af ha)
  | inr (t, ge) ↦ absurd (omega arith)
]
reaches pre best since (x ∷ bf) n af lt hb ha = elim (ltb_ℤ-cases best.position x.position) [
  | inl (t, _) ↦ rw t (reaches (pre ++ (best ∷ since)) x [] bf n af hb.0 hb.1 ha)
  | inr (t, _) ↦ rw t (reaches pre best (since ++ (x ∷ [])) bf n af lt hb.1 ha)
]

-- `getPointEnd` of a list split at its first node with the greatest position.
pub get_point_end-IsLast :
    (bf : Intervals) (n : Interval) (af : Intervals)
    → All (Before n) bf
    → All (Upto n) af
    → get_point_end (bf ++ (n ∷ af)) ≡ end_of n
unfolding get_point_end get_last_node
get_point_end-IsLast [] n af hb ha = ap end_of (stays [] n [] af ha)
get_point_end-IsLast (x ∷ bf) n af hb ha = ap end_of (reaches [] x [] bf n af hb.0 hb.1 ha)
