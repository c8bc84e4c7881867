-- ===== src/Intervals/Append/Disk.antt =====
-- `appendNode` (haarp/utils.cpp) on a file whose ranges fill it from its start without a hole: a
-- block that was written at `getPointEnd` is found again where it was written.
use haarpcache.Base.{
  ℤ, ◌+ℤ◌, ◌-ℤ◌, int_laws, eqb_ℤ, if◌then◌else◌, eqb_ℤ-cases, ltb_ℤ-cases, pos_part, neg_part, ◌+◌,
  parts_of_eq, ◌≤ℤ◌, Bool, true, [], ◌∷◌, ◌++◌, ◌≡◌, ◌↔◌, ◌⊎◌, inl, inr, refl, sym, ap, ◌∙◌, subst,
  All, All-append, All-map, append_assoc,
}
use haarpcache.Intervals.{
  Interval, Intervals, Cursor, one, file_size_from, get_last_node, get_point_end, get_file_size,
  append_node,
}
use haarpcache.Intervals.Append.Last.{
  Before, Upto, IsLast, get_last_node-IsLast, get_point_end-IsLast, end_of,
}
use haarpcache.Intervals.Append.Insert.{
  Stored-insert, All-insert, All-remove, Disjoint-insert, Disjoint-remove, get_file_size-insert,
}
use haarpcache.Intervals.Store.{map_right, At, Stored, Apart, Disjoint, IsRange, IsStore}

abbrev pub size_of : Interval → ℤ
size_of s = s.b -ℤ s.a +ℤ one

-- A block that was not in the store, written at the end of the file.
pub record IsFresh (l : Intervals) (n : Interval) : Type 0 where
  pub range : IsRange n
  pub at_end : n.position ≡ get_point_end l
  pub apart : All (Apart n) l

-- What `appendNode` makes of a list `l` and the block `n`.
pub record Appends (l : Intervals) (n : Interval) (l' : Intervals) : Type 0 where
  pub store : IsStore l'
  pub bytes : (y p : ℤ) → Stored l' y p ↔ (At n y p ⊎ Stored l y p)
  pub size : get_file_size l' ≡ get_file_size l +ℤ size_of n
  pub end : get_point_end l' ≡ get_point_end l +ℤ size_of n

assoc_⊎ {ℓ κ μ} : {A : Type ℓ} {B : Type κ} {C : Type μ} → (A ⊎ B) ⊎ C → A ⊎ (B ⊎ C)
assoc_⊎ (inl (inl a)) = inl a
assoc_⊎ (inl (inr b)) = inr (inl b)
assoc_⊎ (inr c) = inr (inr c)

assoc_⊎' {ℓ κ μ} : {A : Type ℓ} {B : Type κ} {C : Type μ} → A ⊎ (B ⊎ C) → (A ⊎ B) ⊎ C
assoc_⊎' (inl a) = inl (inl a)
assoc_⊎' (inr (inl b)) = inl (inr b)
assoc_⊎' (inr (inr c)) = inr c

map_left {ℓ κ μ} : {A : Type ℓ} {B : Type κ} {C : Type μ} → (A → B) → A ⊎ C → B ⊎ C
map_left f (inl a) = inl (f a)
map_left f (inr c) = inr c

At-joined :
    (last n : Interval) (y p : ℤ)
    → last.b +ℤ one ≡ n.a
    → n.position ≡ end_of last
    → n.a ≤ℤ n.b
    → last.a ≤ℤ last.b
    → At (record last { b = n.b }) y p ↔ (At n y p ⊎ At last y p)
At-joined last n y p e q o o' = (to, from)
  where
    e' : pos_part (last.b +ℤ one) + neg_part n.a ≡ pos_part n.a + neg_part (last.b +ℤ one)
    e' = parts_of_eq _ _ e

    q' : pos_part n.position + neg_part (end_of last) ≡ pos_part (end_of last) + neg_part n.position
    q' = parts_of_eq _ _ q

    to : At (record last { b = n.b }) y p → At n y p ⊎ At last y p
    to ((lo, hi), f) = elim (ltb_ℤ-cases last.b y) [
      | inl (_, lt) ↦ inl ((omega (int_laws, e'), hi), f ∙ omega (int_laws, e', q'))
      | inr (_, le) ↦ inr ((lo, le), f)
    ]

    from : At n y p ⊎ At last y p → At (record last { b = n.b }) y p
    from (inl ((lo, hi), f)) = ((omega (int_laws, e'), hi), f ∙ omega (int_laws, e', q'))
    from (inr ((lo, hi), f)) = ((lo, omega (int_laws, e')), f)

Apart-joined :
    (last n s : Interval)
    → last.b +ℤ one ≡ n.a
    → IsRange s
    → Apart n s
    → Apart last s
    → Apart (record last { b = n.b }) s
Apart-joined last n s e r (inl h) k = inl h
Apart-joined last n s e r (inr h) (inr k) = inr k
Apart-joined last n s e r (inr h) (inl k) = absurd (omega (int_laws, r.ordered, parts_of_eq _ _ e))

All-Apart-joined :
    (last n : Interval) (l : Intervals)
    → last.b +ℤ one ≡ n.a
    → All IsRange l
    → All (Apart n) l
    → All (Apart last) l
    → All (Apart (record last { b = n.b })) l
All-Apart-joined last n [] e r h k = tt
All-Apart-joined last n (s ∷ l) e r h k =
    (Apart-joined last n s e r.0 h.0 k.0, All-Apart-joined last n l e r.1 h.1 k.1)

module _ (bf af : Intervals) (last n : Interval) (h : IsStore (bf ++ (last ∷ af))) where
  join-IsStore :
      last.b +ℤ one ≡ n.a
      → IsRange n
      → All (Apart n) (bf ++ (last ∷ af))
      → IsStore (bf ++ (record last { b = n.b } ∷ af))
  join-IsStore e r fresh =
      let (rl, rs) = All-remove IsRange bf af last h.ranges in
      let (al, d) = Disjoint-remove bf af last h.disjoint in
      let (_, an) = All-remove (Apart n) bf af last fresh in
      record {
        ranges =
            All-insert IsRange bf af (record last { b = n.b })
              (record {
                nonneg = rl.nonneg;
                ordered = omega (int_laws, rl.ordered, r.ordered, parts_of_eq _ _ e);
                on_disk = rl.on_disk;
              })
              rs;
        disjoint =
            Disjoint-insert bf af (record last { b = n.b })
              (All-Apart-joined last n (bf ++ af) e rs an al) d;
      }

  join-Appends :
      All (Before last) bf
      → All (Upto last) af
      → last.b +ℤ one ≡ n.a
      → n.position ≡ end_of last
      → IsRange n
      → All (Apart n) (bf ++ (last ∷ af))
      → Appends (bf ++ (last ∷ af)) n (bf ++ (record last { b = n.b } ∷ af))
  join-Appends before after e q r fresh =
      let joined = record last { b = n.b } in
      let range = (All-remove IsRange bf af last h.ranges).0 in
      record {
        store = join-IsStore e r fresh;
        bytes = λ y p.
            let j = At-joined last n y p e q r.ordered range.ordered in
            let new = Stored-insert bf af joined y p in
            let old = Stored-insert bf af last y p in
            (
              λ s. map_right old.1 (assoc_⊎ (map_left j.0 (new.0 s))),
              λ s. new.1 (map_left j.1 (assoc_⊎' (map_right old.0 s))),
            );
        size =
            get_file_size-insert bf af joined
            ∙ omega
                (int_laws, parts_of_eq _ _ (get_file_size-insert bf af last), parts_of_eq _ _ e);
        end =
            get_point_end-IsLast bf joined af before after
            ∙ omega (
              int_laws,
              parts_of_eq _ _ (get_point_end-IsLast bf last af before after),
              parts_of_eq _ _ e,
            );
      }

  behind-Appends :
      All (Before last) bf
      → All (Upto last) af
      → n.position ≡ end_of last
      → IsRange n
      → All (Apart n) (bf ++ (last ∷ af))
      → Appends (bf ++ (last ∷ af)) n ((bf ++ (last ∷ [])) ++ (n ∷ af))
  behind-Appends before after q r fresh =
      let range = (All-remove IsRange bf af last h.ranges).0 in
      let same : bf ++ (last ∷ af) ≡ (bf ++ (last ∷ [])) ++ af =
        sym (append_assoc bf (last ∷ []) af) in
      let front = bf ++ (last ∷ []) in
      record {
        store = record {
          ranges = All-insert IsRange front af n r (subst (All IsRange) same h.ranges);
          disjoint =
              Disjoint-insert front af n (subst (All (Apart n)) same fresh)
                (subst Disjoint same h.disjoint);
        };
        bytes = λ y p.
            subst (λ k. Stored (front ++ (n ∷ af)) y p ↔ (At n y p ⊎ Stored k y p)) (sym same)
              (Stored-insert front af n y p);
        size = get_file_size-insert front af n ∙ ap (λ k. get_file_size k +ℤ size_of n) (sym same);
        end =
            get_point_end-IsLast front n af
              (All-append (Before n) bf (last ∷ [])
                (All-map (λ s k. omega (int_laws, range.ordered, parts_of_eq _ _ q)) bf before)
                (omega (int_laws, range.ordered, parts_of_eq _ _ q), tt))
              (All-map (λ s k. omega (int_laws, range.ordered, parts_of_eq _ _ q)) af after)
            ∙ omega (
              int_laws,
              parts_of_eq _ _ (get_point_end-IsLast bf last af before after),
              parts_of_eq _ _ q,
            );
      }

first-Appends : (n : Interval) → IsFresh [] n → Appends [] n (n ∷ [])
unfolding get_file_size file_size_from get_point_end
first-Appends n f = record {
  store = record { ranges = (f.range, tt); disjoint = (tt, tt) };
  bytes = λ y p. (λ s. s, λ s. s);
  size = refl;
  end = get_point_end-IsLast [] n [] tt tt ∙ omega (int_laws, parts_of_eq _ _ f.at_end);
}

node-Appends :
    (l : Intervals) (n : Interval) (c : Cursor)
    → IsLast l c
    → IsStore l
    → IsFresh l n
    → Appends l n (
        let r : Intervals × Bool =
          if eqb_ℤ (c.node.b +ℤ one) n.a
          then (c.before ++ (record (c.node) { b = n.b } ∷ c.after), true)
          else (c.before ++ (c.node ∷ (n ∷ c.after)), true) in
        r.0)
node-Appends l n c k h f = elim (eqb_ℤ-cases (c.node.b +ℤ one) n.a) [
  | inl (t, e) ↦ rw t (
      subst (λ m. Appends m n joined) (sym k.splits)
        (join-Appends c.before c.after c.node n h' k.before k.after e q f.range fresh))
  | inr (t, _) ↦ rw t (
      subst (λ m. Appends m n behind) (sym k.splits)
        (subst (Appends list n) (append_assoc c.before (c.node ∷ []) (n ∷ c.after))
          (behind-Appends c.before c.after c.node n h' k.before k.after q f.range fresh)))
]
  where
    list : Intervals
    list = c.before ++ (c.node ∷ c.after)

    joined : Intervals
    joined = c.before ++ (record (c.node) { b = n.b } ∷ c.after)

    behind : Intervals
    behind = c.before ++ (c.node ∷ (n ∷ c.after))

    h' : IsStore list
    h' = subst IsStore k.splits h

    fresh : All (Apart n) list
    fresh = subst (All (Apart n)) k.splits f.apart

    q : n.position ≡ end_of c.node
    q =
        f.at_end
        ∙ ap get_point_end k.splits
        ∙ get_point_end-IsLast c.before c.node c.after k.before k.after

-- A block that the store did not have, written at the end of the file and then recorded: the
-- store afterwards is again one of disjoint ranges, every byte of the block is found where it was
-- written and every other byte where it was before, and the size of the file and the place for the
-- next block grow by the size of the block.
pub append_node-Appends :
    (l : Intervals) (n : Interval) → IsStore l → IsFresh l n → Appends l n (append_node l n).0
unfolding append_node
append_node-Appends [] n h f = first-Appends n f
append_node-Appends (x ∷ xs) n h f =
    node-Appends (x ∷ xs) n (get_last_node x xs) (get_last_node-IsLast x xs) h f
