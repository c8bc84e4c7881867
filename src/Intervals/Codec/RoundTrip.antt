-- ===== src/Intervals/Codec/RoundTrip.antt =====
-- `generateList` reads what `list2string` wrote (haarp/utils.cpp).
use mathlib.Core.Path.{ap₂}
use mathlib.Core.List.{reverse, reverse-cons}
use haarpcache.Base.{
  ℤ, pos, negsuc, ◌≤ℤ◌, ltb_ℤ-cases, ◌≡◌, refl, sym, ap, ◌∙◌, ◌==◌, true, [], ◌∷◌, ◌++◌, map, inl,
  inr, arith, length, All, append-nil, append_assoc,
}
use haarpcache.Intervals.{Interval, Intervals}
use haarpcache.Intervals.Codec.{list_loop, list2string, generate_step, generate_loop, generate_list}
use haarpcache.Text.{Bytes, codes, contains}
use haarpcache.Text.Explode.{
  contains-append, is_empty-append, tails, join-cons, stringexplode, join, IsField,
  stringexplode-join,
}
use haarpcache.Text.Number.{print, atoll-print, print-IsField, print_pos-IsField, is_digit}

abbrev range_field : Interval → Bytes
range_field x = print x.a ++ (b'-' ∷ print x.b)

abbrev position_field : Interval → Bytes
position_field x = print x.position

list_loop-tails :
    (out out1 : Bytes) (l : Intervals)
    → list_loop (codes ",") out out1 l
      ≡ (out ++ tails b',' (map range_field l), out1 ++ tails b',' (map position_field l))
unfolding list_loop
list_loop-tails out out1 [] = ap₂ (λ a b. (a, b)) (sym (append-nil out)) (sym (append-nil out1))
list_loop-tails out out1 (x ∷ xs) =
    list_loop-tails (out ++ (b',' ∷ range_field x)) (out1 ++ (b',' ∷ position_field x)) xs
    ∙ ap₂ (λ a b. (a, b))
        (append_assoc out (b',' ∷ range_field x) (tails b',' (map range_field xs)))
        (append_assoc out1 (b',' ∷ position_field x) (tails b',' (map position_field xs)))

list2string-join :
    (l : Intervals)
    → list2string l ≡ (join b',' (map range_field l), join b',' (map position_field l))
unfolding list2string
list2string-join [] = refl
list2string-join (x ∷ xs) =
    list_loop-tails (range_field x) (position_field x) xs
    ∙ ap₂ (λ a b. (a, b)) (sym (join-cons b',' (range_field x) (map range_field xs)))
        (sym (join-cons b',' (position_field x) (map position_field xs)))

range_field-IsField : (x : Interval) → IsField b',' (range_field x)
unfolding contains is_digit
range_field-IsField x =
    let left = print-IsField b',' x.a refl refl in
    let right = print-IsField b',' x.b refl refl in
    record {
      filled = is_empty-append (print x.a) (b'-' ∷ print x.b) left.filled;
      free = contains-append b',' (print x.a) (b'-' ∷ print x.b) left.free right.free;
    }

range_fields-IsField : (l : Intervals) → All (IsField b',') (map range_field l)
range_fields-IsField [] = tt
range_fields-IsField (x ∷ xs) = (range_field-IsField x, range_fields-IsField xs)

position_fields-IsField : (l : Intervals) → All (IsField b',') (map position_field l)
unfolding is_digit
position_fields-IsField [] = tt
position_fields-IsField (x ∷ xs) =
    (print-IsField b',' x.position refl refl, position_fields-IsField xs)

print_nonneg-IsField : (z : ℤ) → pos 0 ≤ℤ z → IsField b'-' (print z)
unfolding is_digit
print_nonneg-IsField (pos n) h = print_pos-IsField b'-' n refl
print_nonneg-IsField (negsuc n) h = absurd (omega arith)

-- A range as it can be written: byte numbers that are not negative, in order.
pub record IsWritable (x : Interval) : Type 0 where
  pub nonneg : pos 0 ≤ℤ x.a
  pub ordered : x.a ≤ℤ x.b

explode-range_field :
    (x : Interval)
    → IsWritable x
    → stringexplode (range_field x) (codes "-") [] ≡ print x.a ∷ (print x.b ∷ [])
explode-range_field x h = stringexplode-join b'-' (print x.a ∷ (print x.b ∷ [])) (
  print_nonneg-IsField x.a h.nonneg,
  (print_nonneg-IsField x.b (omega (arith, h.nonneg, h.ordered)), tt),
)

generate_step-range_field :
    (x : Interval) (acc : Intervals)
    → IsWritable x
    → generate_step (print x.a ∷ (print x.b ∷ [])) (position_field x) acc ≡ (x ∷ acc, true)
unfolding generate_step
generate_step-range_field x acc h = elim (ltb_ℤ-cases x.b x.a) [
  | inl (t, lt) ↦ absurd (omega (arith, h.ordered))
  | inr (t, _) ↦ rw (atoll-print x.a, atoll-print x.b, atoll-print x.position, t) refl
]

generate_loop-fields :
    (l acc : Intervals)
    → All IsWritable l
    → generate_loop (map range_field l) (map position_field l) acc ≡ (reverse l ++ acc, true)
unfolding generate_loop
generate_loop-fields [] acc h = refl
generate_loop-fields (x ∷ xs) acc h =
    rw (explode-range_field x h.0, generate_step-range_field x acc h.0)
      (generate_loop-fields xs (x ∷ acc) h.1
        ∙ ap (λ k. (k, true))
            (sym (append_assoc (reverse xs) (x ∷ []) acc)
              ∙ ap (λ k. k ++ acc) (sym (reverse-cons x xs))))

length-fields :
    (l : Intervals) → (length (map position_field l) == length (map range_field l)) ≡ true
length-fields [] = refl
length-fields (x ∷ xs) = let ih = length-fields xs in ground arith

-- What `list2string` writes `generateList` reads back, in the opposite order.
pub generate_list-list2string :
    (l : Intervals)
    → All IsWritable l
    → generate_list (list2string l).0 (list2string l).1 ≡ (reverse l, true)
unfolding generate_list
generate_list-list2string l h =
    rw
      (
        list2string-join l,
        stringexplode-join b',' (map range_field l) (range_fields-IsField l),
        stringexplode-join b',' (map position_field l) (position_fields-IsField l),
        length-fields l,
      )
      (generate_loop-fields l [] h ∙ ap (λ k. (k, true)) (append-nil (reverse l)))
