-- ===== src/Users/Add.antt =====
-- `addUserCache` (haarp/utils.cpp) as an update of a map from addresses to clients.
use haarpcache.Base.{
  ℤ, pos, ◌+ℤ◌, leb_ℤ, ◌||◌, if◌then◌else◌, Bool, true, false, Bool-cases, [], ◌∷◌, ◌≡◌, ◌↔◌, refl,
  inl, inr, arith, Option, none, some, All,
}
use haarpcache.Text.{Bytes, codes, equal, is_empty}
use haarpcache.Users.{
  UserCache, Users, touch, new_user, add_or_push, is_unknown, no_address, add_user_cache,
}

pub equal_iff : (a b : Bytes) → (equal a b ≡ true) ↔ (a ≡ b)
unfolding equal
equal_iff [] [] = ground arith
equal_iff (x ∷ a) (y ∷ b) = ground (arith, equal_iff a b)
equal_iff [] (y ∷ b) = ground arith
equal_iff (x ∷ a) [] = ground arith

-- The client with an address.
unfoldable pub find_user : Bytes → Users → Option UserCache
unfolding equal
find_user j [] = none
find_user j (u ∷ us) = if equal u.ip j then some u else find_user j us

-- The address and the date under which a transfer is booked.
abbrev pub booked_ip : Bytes → ℤ → Bytes
booked_ip ip date = if is_empty ip || leb_ℤ date (pos 0) then codes "0.0.0.0" else ip

abbrev pub booked_date : Bytes → ℤ → ℤ
booked_date ip date = if is_empty ip || leb_ℤ date (pos 0) then pos 1 else date

-- The client of an address after a transfer, column by column, from what it was: a hit counts as
-- requested, a miss as brought from the server, and the date of the first transfer stays.
abbrev pub booked : Option UserCache → Bytes → ℤ → ℤ → Bool → UserCache
booked none ip date bytes hit = record {
  ip = ip;
  date_downloaded = date;
  date_modified = date;
  bytes_acumulate = if hit then pos 0 else bytes;
  bytes_requested = if hit then bytes else pos 0;
}
booked (some u) ip date bytes hit = record {
  ip = u.ip;
  date_downloaded = u.date_downloaded;
  date_modified = date;
  bytes_acumulate = if hit then u.bytes_acumulate else u.bytes_acumulate +ℤ bytes;
  bytes_requested = if hit then u.bytes_requested +ℤ bytes else u.bytes_requested;
}

touch-booked :
    (u : UserCache) (ip : Bytes) (date bytes : ℤ) (hit : Bool)
    → touch u date bytes hit ≡ booked (some u) ip date bytes hit
unfolding touch
touch-booked u ip date bytes true = refl
touch-booked u ip date bytes false = refl

touch_ip : (u : UserCache) (date bytes : ℤ) (hit : Bool) → (touch u date bytes hit).ip ≡ u.ip
unfolding touch
touch_ip u date bytes hit = ground arith

find_user-add_or_push :
    (j : Bytes) (l : Users) (ip : Bytes) (date bytes : ℤ) (hit : Bool)
    → find_user j (add_or_push l ip date bytes hit)
      ≡ (if equal ip j then some (booked (find_user ip l) ip date bytes hit) else find_user j l)
unfolding find_user add_or_push
find_user-add_or_push j [] ip date bytes hit = unfold new_user in refl
find_user-add_or_push j (u ∷ us) ip date bytes hit = ground (
  arith,
  equal_iff u.ip ip,
  equal_iff u.ip j,
  equal_iff ip j,
  touch_ip u date bytes hit,
  touch-booked u ip date bytes hit,
  find_user-add_or_push j us ip date bytes hit,
)

-- `addUserCache` books the transfer with the client of its address, or of 0.0.0.0 at time 1 if the
-- address is empty or the time not positive: it sets the time of the last transfer and adds the bytes
-- of a hit to those requested, of a miss to those brought from the server; a new client starts from
-- nothing. It leaves every other client as it was.
pub find_user-add_user_cache :
    (j : Bytes) (l : Users) (ip : Bytes) (date bytes : ℤ) (hit : Bool)
    → find_user j (add_user_cache l ip date bytes hit).0 ≡ (
        if equal (booked_ip ip date) j
        then some (
            booked
              (find_user (booked_ip ip date) l)
              (booked_ip ip date)
              (booked_date ip date)
              bytes
              hit)
        else find_user j l)
unfolding add_user_cache
find_user-add_user_cache j l ip date bytes hit = elim (Bool-cases (is_unknown ip date)) [
  | inl t ↦ rw t (find_user-add_or_push j l no_address (pos 1) bytes hit)
  | inr t ↦ rw t (find_user-add_or_push j l ip date bytes hit)
]

abbrev Missing : Bytes → UserCache → Type 0
Missing ip u = equal u.ip ip ≡ false

-- No address has two entries.
abbrev pub Distinct : Users → Type 0
Distinct [] = Unit {0}
Distinct (u ∷ us) = All (Missing u.ip) us × Distinct us

Missing-add_or_push :
    (j : Bytes) (l : Users) (ip : Bytes) (date bytes : ℤ) (hit : Bool)
    → equal ip j ≡ false
    → All (Missing j) l
    → All (Missing j) (add_or_push l ip date bytes hit)
unfolding add_or_push
Missing-add_or_push j [] ip date bytes hit n h = (unfold new_user in n, tt)
Missing-add_or_push j (u ∷ us) ip date bytes hit n h = elim (Bool-cases (equal u.ip ip)) [
  | inl t ↦ rw t (rw (touch_ip u date bytes hit) h.0, h.1)
  | inr t ↦ rw t (h.0, Missing-add_or_push j us ip date bytes hit n h.1)
]

add_or_push-Distinct :
    (l : Users) (ip : Bytes) (date bytes : ℤ) (hit : Bool)
    → Distinct l
    → Distinct (add_or_push l ip date bytes hit)
unfolding add_or_push
add_or_push-Distinct [] ip date bytes hit h = (tt, tt)
add_or_push-Distinct (u ∷ us) ip date bytes hit h = elim (Bool-cases (equal u.ip ip)) [
  | inl t ↦ rw t (rw (touch_ip u date bytes hit) h.0, h.1)
  | inr t ↦ rw t (
    Missing-add_or_push u.ip us ip date bytes hit
        (ground (arith, equal_iff u.ip ip, equal_iff ip u.ip)) h.0,
    add_or_push-Distinct us ip date bytes hit h.1,
  )
]

-- `addUserCache` keeps every address in one entry.
pub add_user_cache-Distinct :
    (l : Users) (ip : Bytes) (date bytes : ℤ) (hit : Bool)
    → Distinct l
    → Distinct (add_user_cache l ip date bytes hit).0
unfolding add_user_cache
add_user_cache-Distinct l ip date bytes hit h = elim (Bool-cases (is_unknown ip date)) [
  | inl t ↦ rw t (add_or_push-Distinct l no_address (pos 1) bytes hit h)
  | inr t ↦ rw t (add_or_push-Distinct l ip date bytes hit h)
]
