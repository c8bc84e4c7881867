-- ===== src/Users/Codec.antt =====
-- `str2lusercache` reads what `lusercache2str` wrote (haarp/utils.cpp): the clients that were
-- written, the latest first.
use haarpcache.Base.{
  ℕ, ℤ, zero, suc, ◌+◌, ◌-◌, ◌<◌, ◌≤◌, leb, ltb, true, Bool-cases, List, [], ◌∷◌, ◌++◌, map, ◌≡◌,
  refl, sym, ap, ◌∙◌, inl, inr, arith, length, take, All, append-nil, append_assoc, some,
}
use haarpcache.Text.{Bytes, codes, contains}
use haarpcache.Text.Explode.{
  contains-append, is_empty-append, tails, join, join-cons, IsField, stringexplode,
  stringexplode-join,
}
use haarpcache.Text.Number.{print, print-IsField, is_digit}
use haarpcache.Text.Number.Prefix.{scan_prefixed-print}
use haarpcache.Users.{
  UserCache, Users, Fits, scan_into, parse_user, parse_loop, str2lusercache, compare_user_cache,
  insert_sorted, sort, print_user, print_loop, print_users, limit_user_cache_db, limited,
  lusercache2str,
}

-- The address can stand between separators, and the text of the client fits into the buffer.
pub record IsPrintable (u : UserCache) : Type 0 where
  pub comma : IsField b',' u.ip
  pub semicolon : IsField b';' u.ip
  pub fits : Fits u

take-nil : (n : ℕ) → take {A = UserCache} n [] ≡ []
take-nil zero = refl
take-nil (suc n) = refl

print_loop-tails :
    (lsize k : ℕ) (re : Bytes) (us : Users)
    → k < lsize
    → print_loop lsize k re us ≡ re ++ tails b';' (map print_user (take (lsize - k) us))
unfolding print_loop
print_loop-tails lsize k re [] h = rw (take-nil (lsize - k)) (sym (append-nil re))
print_loop-tails lsize k re (u ∷ us) h =
    let e : lsize - k ≡ suc (lsize - (k + 1)) = omega arith in
    elim (Bool-cases (leb lsize (k + 1))) [
      | inl t ↦
          let z : lsize - (k + 1) ≡ zero = ground arith in
          rw (t, e, z) (ap (λ k. re ++ (b';' ∷ k)) (sym (append-nil (print_user u))))
      | inr t ↦
          rw (t, e)
            (print_loop-tails lsize (k + 1) (re ++ (b';' ∷ print_user u)) us (ground arith)
              ∙ append_assoc re (b';' ∷ print_user u) _)
    ]

print_users-join :
    (n : ℕ) (us : Users) → 0 < n → print_users n us ≡ join b';' (map print_user (take n us))
unfolding print_users
print_users-join n [] h = rw (take-nil n) refl
print_users-join n (u ∷ us) h =
    let e : n ≡ suc (n - 1) = omega arith in
    elim (Bool-cases (leb n 1)) [
      | inl t ↦ let z : n ≡ 1 = ground arith in rw z refl
      | inr t ↦ rw t (
          print_loop-tails n 1 (print_user u) us (ground arith)
          ∙ sym (join-cons b';' (print_user u) (map print_user (take (n - 1) us)))
          ∙ ap (λ k. join b';' (map print_user (take k (u ∷ us)))) (sym e))
    ]

take_long : (m n : ℕ) (us : Users) → length us ≤ m → length us ≤ n → take m us ≡ take n us
take_long m n [] h k = rw (take-nil m) (sym (take-nil n))
take_long (suc m) (suc n) (u ∷ us) h k = ap (◌∷◌ u) (take_long m n us (omega arith) (omega arith))
take_long zero n (u ∷ us) h k = absurd (omega arith)
take_long (suc m) zero (u ∷ us) h k = absurd (omega arith)

-- No more clients than there are, or than the limit.
take-limited : (us : Users) → take (limited (length us)) us ≡ take limit_user_cache_db us
take-limited us = elim (Bool-cases (ltb limit_user_cache_db (length us))) [
  | inl t ↦ rw t refl
  | inr t ↦ rw t (take_long (length us) limit_user_cache_db us (omega arith) (ground arith))
]

print_users-limited :
    (us : Users)
    → print_users (limited (length us)) us
      ≡ join b';' (map print_user (take limit_user_cache_db us))
unfolding print_users
print_users-limited [] = refl
print_users-limited (u ∷ us) =
    print_users-join (limited (length (u ∷ us))) (u ∷ us) (ground arith)
    ∙ ap (λ us. join b';' (map print_user us)) (take-limited (u ∷ us))

lusercache2str-join :
    (l : Users) → lusercache2str l ≡ join b';' (map print_user (take limit_user_cache_db (sort l)))
unfolding lusercache2str
lusercache2str-join l = print_users-limited (sort l)

scan_into-print : (old z : ℤ) → scan_into old (print z) ≡ z
unfolding scan_into
scan_into-print old z = rw (scan_prefixed-print z, scan_into) refl

abbrev fields : UserCache → List Bytes
fields u =
    u.ip
    ∷ (print u.date_downloaded
        ∷ (print u.date_modified ∷ (print u.bytes_acumulate ∷ (print u.bytes_requested ∷ []))))

parse_user-fields :
    (n u : UserCache)
    → IsPrintable u
    → parse_user n (stringexplode (print_user u) (codes ",") []) ≡ some u
unfolding print_user parse_user is_digit
parse_user-fields n u h =
    rw
      (stringexplode-join b',' (fields u) (
        h.comma,
        (
          print-IsField b',' u.date_downloaded refl refl,
          (
            print-IsField b',' u.date_modified refl refl,
            (
              print-IsField b',' u.bytes_acumulate refl refl,
              (print-IsField b',' u.bytes_requested refl refl, tt),
            ),
          ),
        ),
      ))
      (rw
        (
          scan_into-print n.date_downloaded u.date_downloaded,
          scan_into-print n.date_modified u.date_modified,
          scan_into-print n.bytes_acumulate u.bytes_acumulate,
          scan_into-print n.bytes_requested u.bytes_requested,
        )
        refl)

parse_loop-print_user :
    (n : UserCache) (lre us : Users)
    → All IsPrintable us
    → parse_loop n lre (map print_user us) ≡ (lre ++ us, true)
unfolding parse_loop
parse_loop-print_user n lre [] h = ap (λ k. (k, true)) (sym (append-nil lre))
parse_loop-print_user n lre (u ∷ us) h =
    rw (parse_user-fields n u h.0, parse_loop)
      (parse_loop-print_user u (lre ++ (u ∷ [])) us h.1
        ∙ ap (λ k. (k, true)) (append_assoc lre (u ∷ []) us))

print_user-IsField : (u : UserCache) → IsPrintable u → IsField b';' (print_user u)
unfolding print_user is_digit contains
print_user-IsField u h =
    let d = print-IsField b';' u.date_downloaded refl refl in
    let m = print-IsField b';' u.date_modified refl refl in
    let a = print-IsField b';' u.bytes_acumulate refl refl in
    let r = print-IsField b';' u.bytes_requested refl refl in
    record {
      filled = is_empty-append u.ip _ h.semicolon.filled;
      free = contains-append b';' u.ip _ h.semicolon.free (
          contains-append b';' (print u.date_downloaded) _ d.free (
            contains-append b';' (print u.date_modified) _ m.free
              (contains-append b';' (print u.bytes_acumulate) _ a.free r.free)));
    }

print_users-IsField : (us : Users) → All IsPrintable us → All (IsField b';') (map print_user us)
print_users-IsField [] h = tt
print_users-IsField (u ∷ us) h = (print_user-IsField u h.0, print_users-IsField us h.1)

insert_sorted-IsPrintable :
    (u : UserCache) (l : Users)
    → IsPrintable u
    → All IsPrintable l
    → All IsPrintable (insert_sorted u l)
unfolding insert_sorted
insert_sorted-IsPrintable u [] hu h = (hu, tt)
insert_sorted-IsPrintable u (x ∷ xs) hu h = elim (Bool-cases (compare_user_cache x u)) [
  | inl t ↦ rw t (h.0, insert_sorted-IsPrintable u xs hu h.1)
  | inr t ↦ rw t (hu, h)
]

sort-IsPrintable : (l : Users) → All IsPrintable l → All IsPrintable (sort l)
unfolding sort
sort-IsPrintable [] h = tt
sort-IsPrintable (u ∷ us) h = insert_sorted-IsPrintable u (sort us) h.0 (sort-IsPrintable us h.1)

take-IsPrintable : (n : ℕ) (l : Users) → All IsPrintable l → All IsPrintable (take n l)
take-IsPrintable zero l h = tt
take-IsPrintable (suc n) [] h = tt
take-IsPrintable (suc n) (u ∷ us) h = (h.0, take-IsPrintable n us h.1)

-- What `lusercache2str` writes `str2lusercache` reads back as the ten latest clients, the latest
-- first, if no address is empty or holds a separator, and the text of each client fits into the
-- buffer of 100 bytes.
pub str2lusercache-lusercache2str :
    (n : UserCache) (l : Users)
    → All IsPrintable l
    → str2lusercache n (lusercache2str l) ≡ (take limit_user_cache_db (sort l), true)
unfolding str2lusercache
str2lusercache-lusercache2str n l h =
    let shown = take-IsPrintable limit_user_cache_db (sort l) (sort-IsPrintable l h) in
    rw
      (
        lusercache2str-join l,
        stringexplode-join b';' (map print_user (take limit_user_cache_db (sort l)))
            (print_users-IsField (take limit_user_cache_db (sort l)) shown),
      )
      (parse_loop-print_user n [] (take limit_user_cache_db (sort l)) shown)
