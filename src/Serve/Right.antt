-- ===== src/Serve/Right.antt =====
-- What `ReadBodyPart` (haarp/connectiontohttp2.cpp) serves from the file is what the origin server has.
use haarpcache.Base.{
  ℕ, zero, suc, ◌≤◌, ℤ, pos, ◌+ℤ◌, ◌-ℤ◌, ◌≤ℤ◌, ◌<ℤ◌, int_laws, parts_of_eq, pos-pos_part, ltb,
  ltb_ℤ-cases, eqb_ℤ-cases, leb_ℤ-cases, Bool-cases, eqb_ℤ, Bool, true, false, ◌&&◌, ◌||◌, List, [],
  ◌∷◌, length, ◌≡◌, inl, inr, refl, ap, ◌∙◌, All, arith,
}
use haarpcache.Text.{Bytes}
use haarpcache.Intervals.{Interval, Intervals, one}
use haarpcache.Intervals.Store.{Covers}
use haarpcache.Body.{Disk}
use haarpcache.Body.Fill.{FromOrigin}
use haarpcache.Serve.{
  Reader, Look, Served, more, last, uneven, late, waiting, take_bytes, deliver, read_body_hit,
  gcount, tbuffer, bytes_at, maxrecv, no_bytes, advance, go_to, served, is_end,
}

-- The file has the bytes of a block.
abbrev pub Holds : (ℤ → ℕ) → Disk → Interval → Type 0
Holds origin disk w = (y : ℤ) → Covers w y → disk (w.position +ℤ y -ℤ w.a) ≡ origin y

bytes_at-FromOrigin :
    (origin : ℤ → ℕ) (disk : Disk) (w : Interval) (y p : ℤ) (n : ℕ)
    → Holds origin disk w
    → w.a ≤ℤ y
    → y +ℤ pos n ≤ℤ w.b +ℤ one
    → p ≡ w.position +ℤ y -ℤ w.a
    → FromOrigin origin y (bytes_at disk p n)
unfolding bytes_at
bytes_at-FromOrigin origin disk w y p zero h lo hi e = tt
bytes_at-FromOrigin origin disk w y p (suc n) h lo hi e = (
  ap disk e ∙ h y (lo, omega int_laws),
  bytes_at-FromOrigin origin disk w (y +ℤ one) (p +ℤ one) n h (omega int_laws) (omega int_laws)
      (omega (int_laws, parts_of_eq _ _ e)),
)

pub length-bytes_at : (disk : Disk) (p : ℤ) (n : ℕ) → length (bytes_at disk p n) ≡ n
unfolding bytes_at
length-bytes_at disk p zero = refl
length-bytes_at disk p (suc n) = ap suc (length-bytes_at disk (p +ℤ one) n)

-- The blocks behind follow one another from byte `t` on.
abbrev pub Follow : ℤ → Intervals → Type 0
Follow t [] = Unit {0}
Follow t (w ∷ ws) = (w.a ≡ t) × (w.a ≤ℤ w.b) × Follow (w.b +ℤ one) ws

-- Between two reads: the next byte to serve is `y`, in the first block of the list.
pub record IsServing (y : ℤ) (w : Interval) (ws : Intervals) (s : Reader) : Type 0 where
  pub pointer : s.place ≡ w.position +ℤ s.acumulate
  pub size : s.limit ≡ w.b -ℤ w.a +ℤ one
  pub next : y ≡ w.a +ℤ s.acumulate
  pub nonneg : pos 0 ≤ℤ s.acumulate
  pub under : s.acumulate <ℤ s.limit
  pub follow : Follow (w.b +ℤ one) ws

abbrev IsServingAt : ℤ → Intervals → Reader → Type 0
IsServingAt y [] s = Unit {0}
IsServingAt y (w ∷ ws) s = IsServing y w ws s

-- The bytes are those of the origin server from byte `y` on, and the next call serves what follows.
abbrev pub IsRightFrom : (ℤ → ℕ) → ℤ → Served → Type 0
IsRightFrom origin y (more bytes brange s) =
    FromOrigin origin y bytes × IsServingAt (y +ℤ pos (length bytes)) brange s
IsRightFrom origin y (last bytes s) = FromOrigin origin y bytes
IsRightFrom origin y (uneven brange s) = Unit {0}
IsRightFrom origin y (late brange s) = Unit {0}
IsRightFrom origin y (waiting brange s) = IsServingAt y brange s

no_bytes-IsServing :
    (y : ℤ) (w : Interval) (ws : Intervals) (look : Look) (s : Reader)
    → IsServing y w ws s
    → IsServing y w ws (no_bytes look s)
unfolding no_bytes
no_bytes-IsServing y w ws look s r = record {
  pointer = r.pointer;
  size = r.size;
  next = r.next;
  nonneg = r.nonneg;
  under = r.under;
  follow = r.follow;
}

-- No more is asked for than the block has left.
pub tbuffer-le : (s : Reader) → s.acumulate <ℤ s.limit → s.acumulate +ℤ pos (tbuffer s) ≤ℤ s.limit
unfolding tbuffer
tbuffer-le s lt = elim (ltb_ℤ-cases s.limit (s.acumulate +ℤ pos maxrecv)) [
  | inl (t, _) ↦
      rw t
        (omega (int_laws, parts_of_eq _ _ (pos-pos_part (s.limit -ℤ s.acumulate) (omega int_laws))))
  | inr (t, ge) ↦ rw t ge
]

gcount-le : (look : Look) (s : Reader) → gcount look s ≤ tbuffer s
unfolding gcount
gcount-le look s = ground arith

gcount_failed : (look : Look) (s : Reader) → s.failed ≡ true → gcount look s ≡ 0
unfolding gcount
gcount_failed look s t = rw t refl

pub neither : (a b : Bool) → a ≡ false → b ≡ false → (a || b) ≡ false
neither a b h k = ground arith

pub not_less : (m n : ℕ) → n ≤ m → ltb m n ≡ false
not_less m n h = ground arith

-- A read that fills the block gets all that it asks for.
take_bytes_whole :
    (look : Look) (s : Reader)
    → s.acumulate <ℤ s.limit
    → s.acumulate +ℤ pos (gcount look s) ≡ s.limit
    → (take_bytes look s).failed ≡ false
unfolding take_bytes
take_bytes_whole look s lt e = elim (Bool-cases s.failed) [
  | inl t ↦ absurd (omega (int_laws, parts_of_eq _ _ e, gcount_failed look s t))
  | inr t ↦
      neither s.failed (ltb (gcount look s) (tbuffer s)) t (
        not_less (gcount look s) (tbuffer s) (omega (int_laws, tbuffer-le s lt, parts_of_eq _ _ e)))
]

advance-IsServing :
    (y : ℤ) (w : Interval) (ws : Intervals) (look : Look) (s : Reader)
    → IsServing y w ws s
    → IsServingAt
        (y +ℤ pos (gcount look s))
        (advance (w ∷ ws) (take_bytes look s)).0
        (advance (w ∷ ws) (take_bytes look s)).1
unfolding advance take_bytes go_to
advance-IsServing y w ws look s r =
    elim (eqb_ℤ-cases (s.acumulate +ℤ pos (gcount look s)) s.limit) [
      | inr (t, ne) ↦ rw t (record {
        pointer = omega (int_laws, parts_of_eq _ _ r.pointer);
        size = r.size;
        next = omega (int_laws, parts_of_eq _ _ r.next);
        nonneg = omega (int_laws, r.nonneg);
        under = elim ne [
          | inl lt ↦ lt
          | inr gt ↦ absurd (omega (int_laws, tbuffer-le s r.under, gcount-le look s))
        ];
        follow = r.follow;
      })
      | inl (t, e) ↦ rw t (
          done ws r.follow (take_bytes_whole look s r.under e)
            (omega (int_laws, parts_of_eq _ _ e, parts_of_eq _ _ r.next, parts_of_eq _ _ r.size)))
    ]
  where
    done :
        (ws : Intervals)
        → Follow (w.b +ℤ one) ws
        → (take_bytes look s).failed ≡ false
        → y +ℤ pos (gcount look s) ≡ w.b +ℤ one
        → IsServingAt (y +ℤ pos (gcount look s)) ws (go_to ws (take_bytes look s))
    done [] h f u = tt
    done (v ∷ vs) h f u = rw f (record {
      pointer = omega int_laws;
      size = refl;
      next = omega (int_laws, parts_of_eq _ _ h.0, parts_of_eq _ _ u);
      nonneg = omega arith;
      under = omega (int_laws, h.1);
      follow = h.2;
    })

timed-IsServingAt :
    (y t : ℤ) (brange : Intervals) (s : Reader)
    → IsServingAt y brange s
    → IsServingAt y brange (record s { timerecord = t })
timed-IsServingAt y t [] s r = tt
timed-IsServingAt y t (w ∷ ws) s r = record {
  pointer = r.pointer;
  size = r.size;
  next = r.next;
  nonneg = r.nonneg;
  under = r.under;
  follow = r.follow;
}

served-IsRightFrom :
    (origin : ℤ → ℕ) (y size : ℤ) (look : Look) (bytes : Bytes) (brange : Intervals) (s : Reader)
    → FromOrigin origin y bytes
    → IsServingAt (y +ℤ pos (length bytes)) brange s
    → IsRightFrom origin y (served size look bytes brange s)
unfolding served
served-IsRightFrom origin y size look bytes brange s h r =
    elim (leb_ℤ-cases (pos 10) (look.tested -ℤ look.recorded)) [
      | inl (t, _) ↦ rw t tt
      | inr (t, _) ↦ elim (Bool-cases (is_end brange && eqb_ℤ s.filesended size)) [
        | inl u ↦ rw (t, u) h
        | inr u ↦ elim (Bool-cases (is_end brange || eqb_ℤ s.filesended size)) [
          | inl v ↦ rw (t, u, v) tt
          | inr v ↦ rw (t, u, v) (h, r)
        ]
      ]
    ]

deliver-IsRightFrom :
    (origin : ℤ → ℕ) (y size : ℤ) (look : Look) (w : Interval) (ws : Intervals) (s : Reader)
    → Holds origin look.content w
    → IsServing y w ws s
    → IsRightFrom origin y (deliver size look (w ∷ ws) s)
unfolding deliver
deliver-IsRightFrom origin y size look w ws s h r =
    served-IsRightFrom origin y size look (bytes_at look.content s.place (gcount look s))
      (advance (w ∷ ws) (take_bytes look s)).0
      (record (advance (w ∷ ws) (take_bytes look s)).1 { timerecord = look.recorded })
      (bytes_at-FromOrigin origin look.content w y s.place (gcount look s) h
        (omega (int_laws, parts_of_eq _ _ r.next, r.nonneg))
        (omega (
          int_laws,
          parts_of_eq _ _ r.next,
          parts_of_eq _ _ r.size,
          tbuffer-le s r.under,
          gcount-le look s,
        ))
        (omega (int_laws, parts_of_eq _ _ r.next, parts_of_eq _ _ r.pointer)))
      (rw (length-bytes_at look.content s.place (gcount look s)) (
        timed-IsServingAt (y +ℤ pos (gcount look s)) look.recorded
          (advance (w ∷ ws) (take_bytes look s)).0 (advance (w ∷ ws) (take_bytes look s)).1
          (advance-IsServing y w ws look s r)))

-- Whatever the rounds of the loop find, the bytes that a call serves are those of the origin server,
-- from the next byte of the request on, and the state left is the one from which the next call
-- serves what follows, if the file has the bytes of the block in each of them.
pub read_body_hit-IsRightFrom :
    (origin : ℤ → ℕ) (y size : ℤ) (looks : List Look) (w : Interval) (ws : Intervals) (s : Reader)
    → All (λ look. Holds origin look.content w) looks
    → IsServing y w ws s
    → IsRightFrom origin y (read_body_hit size looks (w ∷ ws) s)
unfolding read_body_hit
read_body_hit-IsRightFrom origin y size [] w ws s h r = r
read_body_hit-IsRightFrom origin y size (look ∷ looks) w ws s h r =
    elim (Bool-cases (ltb 0 (gcount look s))) [
      | inl t ↦ rw t (deliver-IsRightFrom origin y size look w ws s h.0 r)
      | inr t ↦ elim (leb_ℤ-cases (pos 10) (look.tested -ℤ s.timerecord)) [
        | inl (u, _) ↦ rw (t, u) tt
        | inr (u, _) ↦ elim (Bool-cases (eqb_ℤ (no_bytes look s).filesended size)) [
          | inl v ↦ rw (t, u, v) tt
          | inr v ↦
              rw (t, u, v)
                (read_body_hit-IsRightFrom origin y size looks w ws (no_bytes look s) h.1
                  (no_bytes-IsServing y w ws look s r))
        ]
      ]
    ]
