-- ===== src/Limits/First.antt =====
-- Which range `getLimitBytes` (haarp/connectiontohttp2.cpp) takes from the lines of a header.
use haarpcache.Base.{
  ℕ, ℤ, pos, negsuc, true, Bool-cases, List, [], ◌∷◌, ◌++◌, some, ◌>>=◌, All, ◌≡◌, refl, sym, ◌∙◌,
  subst, inl, inr,
}
use haarpcache.Text.{Bytes, codes, contains}
use haarpcache.Text.Explode.{
  stringexplode, stringexplode-pieces, stringexplode-join, pieces, IsField, is_empty-append,
  contains-append, pieces-sep,
}
use haarpcache.Text.Number.{print, atoll, atoll-print, print_pos-IsField, is_digit}
use haarpcache.Limits.{Limits, starts, range_line, line_step, lines_loop, limits_of}
use haarpcache.Limits.Lines.{
  Reads, range_name, NoOrigin, Plain, line_step-Plain, from_range, lines_loop_skips,
}

-- A range has been read, from `a` to `b`.
pub record IsSettled (a b : ℤ) (s : Limits) : Type 0 where
  pub min : s.range_min ≡ a
  pub max : s.range_max ≡ b
  pub partial : s.partial ≡ true
  pub name : Bytes
  pub text : Bytes
  pub values : List Bytes
  pub value : s.value ≡ name ∷ text ∷ values
  pub first : Bytes
  pub last : Bytes
  pub others : List Bytes
  pub rangeb : s.rangeb ≡ first ∷ last ∷ others
  pub first_value : atoll first ≡ a
  pub last_value : atoll last ≡ b

range_line-IsSettled :
    (a b : ℤ) (line : Bytes) (s : Limits) → IsSettled a b s → IsSettled a b (range_line line s)
unfolding range_line
range_line-IsSettled a b line s k =
    rw
      (
        k.value,
        stringexplode-pieces line (codes "=") (k.name ∷ k.text ∷ k.values),
        k.rangeb,
        stringexplode-pieces k.text (codes "-") (k.first ∷ k.last ∷ k.others),
      )
      (record {
        min = k.first_value;
        max = k.last_value;
        partial = refl;
        name = k.name;
        text = k.text;
        values = k.values ++ pieces (codes "=") [] line;
        value = refl;
        first = k.first;
        last = k.last;
        others = k.others ++ pieces (codes "-") [] k.text;
        rangeb = refl;
        first_value = k.first_value;
        last_value = k.last_value;
      })

lines_loop-IsSettled :
    (a b : ℤ) (after : List Bytes) (s : Limits)
    → All NoOrigin after
    → IsSettled a b s
    → Reads a b (lines_loop after s)
unfolding lines_loop
lines_loop-IsSettled a b [] s h k = (k.min, k.max, k.partial)
lines_loop-IsSettled a b (line ∷ after) s h k = elim (Bool-cases (starts range_name line)) [
  | inl t ↦
      subst (λ o. Reads a b (o >>= (λ s'. lines_loop after s'))) (sym (stepped line s t))
        (lines_loop-IsSettled a b after (range_line line s) h.1 (range_line-IsSettled a b line s k))
  | inr t ↦
      subst (λ o. Reads a b (o >>= (λ s'. lines_loop after s')))
        (sym (line_step-Plain line s (t, h.0))) (lines_loop-IsSettled a b after s h.1 k)
]
  where
    stepped :
        (line : Bytes) (s : Limits)
        → starts range_name line ≡ true
        → line_step line s ≡ some (range_line line s)
    stepped line s t = unfold line_step in rw t refl

-- "a-b".
abbrev pub range_text : ℕ → ℕ → Bytes
range_text a b = print (pos a) ++ (b'-' ∷ print (pos b))

range_text-IsField : (a b : ℕ) → IsField b'=' (range_text a b)
unfolding contains is_digit
range_text-IsField a b = record {
  filled =
      is_empty-append (print (pos a)) (b'-' ∷ print (pos b)) (print_pos-IsField b'=' a refl).filled;
  free =
      contains-append b'=' (print (pos a)) (b'-' ∷ print (pos b))
        (print_pos-IsField b'=' a refl).free (print_pos-IsField b'=' b refl).free;
}

explode_line :
    (v : Bytes)
    → IsField b'=' v
    → stringexplode (range_name ++ v) (codes "=") [] ≡ codes "Range: bytes" ∷ (v ∷ [])
unfolding contains
explode_line v h =
    stringexplode-join b'=' (codes "Range: bytes" ∷ (v ∷ []))
      (record { filled = refl; free = refl }, (h, tt))

explode_text :
    (a b : ℕ) → stringexplode (range_text a b) (codes "-") [] ≡ print (pos a) ∷ (print (pos b) ∷ [])
unfolding is_digit
explode_text a b =
    stringexplode-join b'-' (print (pos a) ∷ (print (pos b) ∷ []))
      (print_pos-IsField b'-' a refl, (print_pos-IsField b'-' b refl, tt))

range_line_first :
    (a b : ℕ) (s : Limits)
    → s.value ≡ []
    → s.rangeb ≡ []
    → IsSettled (pos a) (pos b) (range_line (range_name ++ range_text a b) s)
unfolding range_line
range_line_first a b s v r =
    rw (v, explode_line (range_text a b) (range_text-IsField a b), r, explode_text a b)
      (record {
        min = atoll-print (pos a);
        max = atoll-print (pos b);
        partial = refl;
        name = codes "Range: bytes";
        text = range_text a b;
        values = [];
        value = refl;
        first = print (pos a);
        last = print (pos b);
        others = [];
        rangeb = refl;
        first_value = atoll-print (pos a);
        last_value = atoll-print (pos b);
      })

suffix-IsField : (n : ℕ) → IsField b'=' (b'-' ∷ print (pos n))
unfolding contains is_digit
suffix-IsField n = record { filled = refl; free = (print_pos-IsField b'=' n refl).free }

explode_suffix : (n : ℕ) → stringexplode (b'-' ∷ print (pos n)) (codes "-") [] ≡ print (pos n) ∷ []
unfolding is_digit
explode_suffix n =
    stringexplode-pieces (b'-' ∷ print (pos n)) (codes "-") []
    ∙ pieces-sep b'-' [] (print (pos n))
    ∙ sym (stringexplode-pieces (print (pos n)) (codes "-") [])
    ∙ stringexplode-join b'-' (print (pos n) ∷ []) (print_pos-IsField b'-' n refl, tt)

range_line_suffix :
    (n : ℕ) (s : Limits)
    → s.value ≡ []
    → s.rangeb ≡ []
    → Reads (pos n) (negsuc 0) (some (range_line (range_name ++ (b'-' ∷ print (pos n))) s))
unfolding range_line
range_line_suffix n s v r =
    rw (v, explode_line (b'-' ∷ print (pos n)) (suffix-IsField n), r, explode_suffix n)
      (atoll-print (pos n), refl, refl)

-- The first range line of a header, "Range: bytes=a-b", gives the range, whatever range lines come
-- after it.
pub limits_of-Reads :
    (before after : List Bytes) (a b : ℕ)
    → All Plain before
    → All NoOrigin after
    → Reads (pos a) (pos b) (limits_of (before ++ ((range_name ++ range_text a b) ∷ after)))
limits_of-Reads before after a b h k =
    from_range (Reads (pos a) (pos b)) (range_text a b) after
      (λ s v r.
        lines_loop-IsSettled (pos a) (pos b) after (range_line (range_name ++ range_text a b) s) k
          (range_line_first a b s v r))
      before h

-- A range of the last `n` bytes, "Range: bytes=-n", is read as the range from byte `n` on.
pub limits_of_suffix :
    (before after : List Bytes) (n : ℕ)
    → All Plain before
    → All Plain after
    → Reads
        (pos n)
        (negsuc 0)
        (limits_of (before ++ ((range_name ++ (b'-' ∷ print (pos n))) ∷ after)))
limits_of_suffix before after n h k =
    from_range (Reads (pos n) (negsuc 0)) (b'-' ∷ print (pos n)) after
      (λ s v r.
        subst (Reads (pos n) (negsuc 0))
          (sym (lines_loop_skips after (range_line (range_name ++ (b'-' ∷ print (pos n))) s) k))
          (range_line_suffix n s v r))
      before h
