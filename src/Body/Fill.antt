-- ===== src/Body/Fill.antt =====
-- Writing a block of the body to the file (haarp/connectiontohttp2.cpp, `ReadBodyPart`): no byte
-- that is stored is lost, and a full block is recorded with the bytes that it has.
use haarpcache.Base.{
  ℕ, ℤ, pos, ◌+ℤ◌, ◌-ℤ◌, ◌≤ℤ◌, ◌<ℤ◌, int_laws, parts_of_eq, eqb_ℤ, eqb_ℤ-cases, if◌then◌else◌, Bool,
  true, false, [], ◌∷◌, length, ◌≡◌, inl, inr, sym, ap, ◌∙◌, subst,
}
use haarpcache.Text.{Bytes}
use haarpcache.Intervals.{Interval, Intervals, one}
use haarpcache.Intervals.Store.{Covers, Stored, IsRange, IsStore}
use haarpcache.Intervals.Append.Disk.{IsFresh}
use haarpcache.Intervals.Append.Places.{IsPacked}
use haarpcache.Body.{Disk, write_at}

-- The bytes are those of the file on the origin server, from byte `y` on.
abbrev pub FromOrigin : (ℤ → ℕ) → ℤ → Bytes → Type 0
FromOrigin origin y [] = Unit {0}
FromOrigin origin y (x ∷ xs) = (x ≡ origin y) × FromOrigin origin (y +ℤ one) xs

-- Every byte that the list of ranges has is on disk as it is on the origin server.
pub record IsFaithful (origin : ℤ → ℕ) (l : Intervals) (disk : Disk) : Type 0 where
  pub store : IsStore l
  pub packed : IsPacked l
  pub content : (y p : ℤ) → Stored l y p → disk p ≡ origin y

-- The block in work: one that is new, or one whose bytes are stored.
abbrev pub Placed : Intervals → Interval → Bool → Type 0
Placed l w true = IsFresh l w
Placed l w false = IsRange w × ((y : ℤ) → Covers w y → Stored l y (w.position +ℤ y -ℤ w.a))

-- The first `n` bytes of the block are on disk.
abbrev pub Written : (ℤ → ℕ) → Disk → Interval → ℤ → Type 0
Written origin disk w n =
    (y : ℤ) → w.a ≤ℤ y → y <ℤ w.a +ℤ n → disk (w.position +ℤ y -ℤ w.a) ≡ origin y

pub record IsFilled (origin : ℤ → ℕ) (l : Intervals) (disk : Disk) (w : Interval) (new : Bool)
    (n : ℤ) : Type 0 where
  pub faithful : IsFaithful origin l disk
  pub placed : Placed l w new
  pub written : Written origin disk w n
  pub nonneg : pos 0 ≤ℤ n

abbrev put : Disk → ℤ → ℕ → Disk
put disk p x q = if eqb_ℤ q p then x else disk q

pub Placed-IsRange : (l : Intervals) (w : Interval) (new : Bool) → Placed l w new → IsRange w
Placed-IsRange l w true h = h.range
Placed-IsRange l w false h = h.0

-- A place of the block holds no other byte of the store.
place_unique :
    (l : Intervals) (w : Interval) (new : Bool) (y z : ℤ)
    → IsPacked l
    → Placed l w new
    → Covers w y
    → Stored l z (w.position +ℤ y -ℤ w.a)
    → z ≡ y
place_unique l w true y z k h c s =
    absurd (omega (int_laws, k.inside z (w.position +ℤ y -ℤ w.a) s, parts_of_eq _ _ h.at_end, c.0))
place_unique l w false y z k h c s = k.once z y (w.position +ℤ y -ℤ w.a) s (h.1 y c)

put-IsFilled :
    (origin : ℤ → ℕ) (l : Intervals) (disk : Disk) (w : Interval) (new : Bool) (n : ℤ)
    → IsFilled origin l disk w new n
    → n +ℤ w.a ≤ℤ w.b
    → IsFilled origin l (put disk (w.position +ℤ n) (origin (w.a +ℤ n))) w new (n +ℤ one)
put-IsFilled origin l disk w new n f le = record {
  faithful = record { store = f.faithful.store; packed = f.faithful.packed; content = content };
  placed = f.placed;
  written = written;
  nonneg = omega (int_laws, f.nonneg);
}
  where
    here : w.position +ℤ n ≡ w.position +ℤ (w.a +ℤ n) -ℤ w.a
    here = omega int_laws

    content : (y p : ℤ) → Stored l y p → put disk (w.position +ℤ n) (origin (w.a +ℤ n)) p ≡ origin y
    content y p s = elim (eqb_ℤ-cases p (w.position +ℤ n)) [
      | inr (t, _) ↦ rw t (f.faithful.content y p s)
      | inl (t, e) ↦ rw t (
          ap origin (
            sym (
              place_unique l w new (w.a +ℤ n) y f.faithful.packed f.placed
                (omega (int_laws, f.nonneg), omega int_laws)
                (subst (λ q. Stored l y q) (e ∙ here) s))))
    ]

    written : Written origin (put disk (w.position +ℤ n) (origin (w.a +ℤ n))) w (n +ℤ one)
    written y lo hi = elim (eqb_ℤ-cases (w.position +ℤ y -ℤ w.a) (w.position +ℤ n)) [
      | inl (t, e) ↦ rw t (ap origin (omega (int_laws, parts_of_eq _ _ e)))
      | inr (t, ne) ↦
          rw t (f.written y lo (elim ne [ inl h ↦ omega int_laws | inr h ↦ omega int_laws ]))
    ]

-- Bytes of the origin server go to the block in work, as far as it has room.
pub write_at-IsFilled :
    (origin : ℤ → ℕ) (l : Intervals) (disk : Disk) (w : Interval) (new : Bool) (n : ℤ)
    (part : Bytes)
    → IsFilled origin l disk w new n
    → FromOrigin origin (w.a +ℤ n) part
    → w.a +ℤ n +ℤ pos (length part) ≤ℤ w.b +ℤ one
    → IsFilled origin l (write_at disk (w.position +ℤ n) part) w new (n +ℤ pos (length part))
unfolding write_at
write_at-IsFilled origin l disk w new n [] f h le =
    subst (λ k. IsFilled origin l disk w new k) (omega int_laws) f
write_at-IsFilled origin l disk w new n (x ∷ xs) f h le =
    let disk' = put disk (w.position +ℤ n) (origin (w.a +ℤ n)) in
    rw h.0 (
      subst (λ k. IsFilled origin l (write_at disk' (w.position +ℤ n +ℤ one) xs) w new k)
        (omega int_laws)
        (subst (λ k. IsFilled origin l (write_at disk' k xs) w new (n +ℤ one +ℤ pos (length xs)))
          (omega int_laws)
          (write_at-IsFilled origin l disk' w new (n +ℤ one) xs
            (put-IsFilled origin l disk w new n f (omega int_laws))
            (subst (λ k. FromOrigin origin k xs) (omega int_laws) h.1) (omega int_laws))))
