-- ===== src/Body/Sound.antt =====
-- What a block in work is between two parts of the body (`ReadBodyPart` of
-- haarp/connectiontohttp2.cpp), and that recording it, and starting the next one, keep this.
use haarpcache.Base.{
  ℕ, ℤ, pos, ◌+ℤ◌, ◌-ℤ◌, ◌≤ℤ◌, ◌<ℤ◌, int_laws, parts_of_eq, ltb_ℤ-cases, leb_ℤ-cases, true,
  Bool-cases, [], ◌∷◌, length, ◌≡◌, ◌⊎◌, inl, inr, refl, ap, ◌∙◌, subst, All, arith,
}
use haarpcache.Text.{Bytes}
use haarpcache.Intervals.{Interval, Intervals, one, append_node}
use haarpcache.Intervals.Store.{Covers, Stored, Apart, IsRange, IsStore}
use haarpcache.Intervals.Append.Disk.{IsFresh, Appends, append_node-Appends}
use haarpcache.Intervals.Append.Places.{append_node-IsPacked}
use haarpcache.Intervals.Work.Blocks.{IsRight}
use haarpcache.Body.{Disk, Download, write_part, close_block}
use haarpcache.Body.Fill.{FromOrigin, IsFaithful, IsFilled, write_at-IsFilled}

-- The blocks still to come follow one another from byte `t` on, and are right for the store.
abbrev pub IsAhead : Intervals → ℤ → Intervals → Type 0
IsAhead l t [] = Unit {0}
IsAhead l t (v ∷ vs) = (v.a ≡ t) × (v.a ≤ℤ v.b) × IsRight l v × IsAhead l (v.b +ℤ one) vs

-- Between two writes: the block in work is on disk as far as `acumulate` says.
pub record IsReady (origin : ℤ → ℕ) (w : Interval) (ws : Intervals) (s : Download) : Type 0 where
  pub filled : IsFilled origin s.lranges s.disk w s.bwrite s.acumulate
  pub pointer : s.place ≡ w.position +ℤ s.acumulate
  pub size : s.limit ≡ w.b -ℤ w.a +ℤ one
  pub upto : s.acumulate ≤ℤ s.limit
  pub ahead : IsAhead s.lranges (w.b +ℤ one) ws

-- A block is done, and the next byte to come is `t`.
pub record IsClosed (origin : ℤ → ℕ) (t : ℤ) (ws : Intervals) (s : Download) : Type 0 where
  pub faithful : IsFaithful origin s.lranges s.disk
  pub ahead : IsAhead s.lranges t ws

-- The blocks to come stay right where the store gains bytes before them only.
pub IsAhead-grow :
    (l l' : Intervals) (t u : ℤ) (ws : Intervals)
    → ((y p : ℤ) → Stored l y p → Stored l' y p)
    → ((y p : ℤ) → Stored l' y p → (y <ℤ t) ⊎ Stored l y p)
    → t ≤ℤ u
    → IsAhead l u ws
    → IsAhead l' u ws
IsAhead-grow l l' t u [] more less le h = tt
IsAhead-grow l l' t u (v ∷ vs) more less le h = (
  h.0,
  h.1,
  record {
    hits = λ k y c. more y (v.position +ℤ y -ℤ v.a) (h.2.hits k y c);
    misses = λ k y p c s. elim (less y p s) [
      | inl lt ↦ omega (int_laws, parts_of_eq _ _ (h.0), c.0)
      | inr s' ↦ h.2.misses k y p c s'
    ];
  },
  IsAhead-grow l l' t (v.b +ℤ one) vs more less (omega (int_laws, parts_of_eq _ _ (h.0))) h.3,
)

-- A stored byte lies in no block that is apart from the store.
pub Apart-Stored :
    (w : Interval) (l : Intervals) (y p : ℤ) → All (Apart w) l → Stored l y p → Covers w y → ⊥
Apart-Stored w [] y p h k c = absurd k
Apart-Stored w (s ∷ l) y p h (inl ((lo, hi), _)) c = elim h.0 [
  | inl k ↦ omega (int_laws, c.1)
  | inr k ↦ omega (int_laws, c.0)
]
Apart-Stored w (s ∷ l) y p h (inr k) c = Apart-Stored w l y p h.1 k c

Apart-unstored :
    (v s : Interval) → v.a ≤ℤ v.b → IsRange s → ((y : ℤ) → Covers v y → Covers s y → ⊥) → Apart v s
Apart-unstored v s o r never = elim (ltb_ℤ-cases v.b s.a) [
  | inl (_, lt) ↦ inl lt
  | inr (_, ge) ↦ elim (ltb_ℤ-cases s.b v.a) [
    | inl (_, lt) ↦ inr lt
    | inr (_, ge') ↦ absurd (elim (leb_ℤ-cases v.a s.a) [
      | inl (_, le) ↦ never s.a (le, ge) (omega arith, r.ordered)
      | inr (_, gt) ↦ never v.a (omega arith, o) (omega arith, ge')
    ])
  ]
]

-- A block of which no byte is stored is apart from the store.
pub All-Apart-unstored :
    (v : Interval) (l : Intervals)
    → v.a ≤ℤ v.b
    → All IsRange l
    → ((y p : ℤ) → Covers v y → ¬ Stored l y p)
    → All (Apart v) l
All-Apart-unstored v [] o h never = tt
All-Apart-unstored v (s ∷ l) o h never = (
  Apart-unstored v s o h.0 (λ y c d. never y (s.position +ℤ y -ℤ s.a) c (inl (d, refl))),
  All-Apart-unstored v l o h.1 (λ y p c k. never y p c (inr k)),
)

pub write_part-IsReady :
    (origin : ℤ → ℕ) (w : Interval) (ws : Intervals) (s : Download) (part : Bytes)
    → IsReady origin w ws s
    → FromOrigin origin (w.a +ℤ s.acumulate) part
    → s.acumulate +ℤ pos (length part) ≤ℤ s.limit
    → IsReady origin w ws (write_part part s)
unfolding write_part
write_part-IsReady origin w ws s part r h le = record {
  filled = rw r.pointer (
      write_at-IsFilled origin s.lranges s.disk w s.bwrite s.acumulate part r.filled h
        (omega (int_laws, parts_of_eq _ _ r.size)));
  pointer = omega (int_laws, parts_of_eq _ _ r.pointer);
  size = r.size;
  upto = le;
  ahead = r.ahead;
}

-- A new block of which every byte is on disk is recorded.
pub append_node-IsFaithful :
    (origin : ℤ → ℕ) (l : Intervals) (disk : Disk) (w : Interval)
    → IsFaithful origin l disk
    → IsFresh l w
    → ((y : ℤ) → Covers w y → disk (w.position +ℤ y -ℤ w.a) ≡ origin y)
    → IsFaithful origin (append_node l w).0 disk
append_node-IsFaithful origin l disk w f n h = record {
  store = out.store;
  packed = append_node-IsPacked l w f.store f.packed n;
  content = λ y p s. elim ((out.bytes y p).0 s) [
    | inl (c, e) ↦ ap disk e ∙ h y c
    | inr k ↦ f.content y p k
  ];
}
  where
    out : Appends l w (append_node l w).0
    out = append_node-Appends l w f.store n

pub append_node-IsAhead :
    (l : Intervals) (w : Interval) (t : ℤ) (ws : Intervals)
    → IsStore l
    → IsFresh l w
    → w.b <ℤ t
    → IsAhead l t ws
    → IsAhead (append_node l w).0 t ws
append_node-IsAhead l w t ws h n lt a =
    IsAhead-grow l (append_node l w).0 t t ws (λ y p s. (out.bytes y p).1 (inr s))
      (λ y p s. elim ((out.bytes y p).0 s) [
        | inl (c, _) ↦ inl (omega (arith, c.1))
        | inr k ↦ inr k
      ])
      (omega arith) a
  where
    out : Appends l w (append_node l w).0
    out = append_node-Appends l w h n

close-new :
    (origin : ℤ → ℕ) (w : Interval) (ws : Intervals) (l : Intervals) (disk : Disk) (n : ℤ)
    → IsFilled origin l disk w true n
    → n ≡ w.b -ℤ w.a +ℤ one
    → IsFaithful origin (append_node l w).0 disk
close-new origin w ws l disk n f e =
    append_node-IsFaithful origin l disk w f.faithful f.placed
      (λ y c. f.written y c.0 (omega (int_laws, c.1, parts_of_eq _ _ e)))

-- A block that is full is recorded with the bytes that it has.
pub close_block-IsClosed :
    (origin : ℤ → ℕ) (w : Interval) (ws : Intervals) (s : Download)
    → IsReady origin w ws s
    → s.acumulate ≡ s.limit
    → IsClosed origin (w.b +ℤ one) ws (close_block w s)
unfolding close_block
close_block-IsClosed origin w ws s r e = elim (Bool-cases s.bwrite) [
  | inr t ↦ rw t (record { faithful = r.filled.faithful; ahead = r.ahead })
  | inl t ↦
      let new = subst (λ c. IsFilled origin s.lranges s.disk w c s.acumulate) t r.filled in
      rw t (record {
        faithful = close-new origin w ws s.lranges s.disk s.acumulate new (e ∙ r.size);
        ahead =
            append_node-IsAhead s.lranges w (w.b +ℤ one) ws new.faithful.store new.placed
              (omega int_laws) r.ahead;
      })
]
