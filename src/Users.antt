-- ===== src/Users.antt =====
-- The clients of a cached file: `usercache` of haarp/utils.h, and `addUserCache`,
-- `str2lusercache`, `lusercache2str` and `compareUserCache` of haarp/utils.cpp.
pub mod Add
pub mod Codec
use haarpcache.Base.{
  ℕ, ◌+◌, ◌<◌, ℤ, pos, ◌+ℤ◌, ltb_ℤ, leb_ℤ, leb, ltb, if◌then◌else◌, Bool, true, false, ◌||◌, List,
  [], ◌∷◌, ◌++◌, Option, none, some, length,
}
use haarpcache.Text.{Bytes, codes, equal, is_empty}
use haarpcache.Text.Explode.{stringexplode}
use haarpcache.Text.Number.{print}
use haarpcache.Text.Number.Prefix.{scan_prefixed}

pub record UserCache : Type 0 where
  pub ip : Bytes
  pub date_downloaded : ℤ
  pub date_modified : ℤ
  pub bytes_acumulate : ℤ
  pub bytes_requested : ℤ

abbrev pub Users : Type 0
Users = List UserCache

-- The client is known: its date is set, and its bytes are added.
unfoldable pub touch : UserCache → ℤ → ℤ → Bool → UserCache
touch u date bytes hit =
    if hit
    then record u { date_modified = date; bytes_requested = u.bytes_requested +ℤ bytes }
    else record u { date_modified = date; bytes_acumulate = u.bytes_acumulate +ℤ bytes }

unfoldable pub new_user : Bytes → ℤ → ℤ → Bool → UserCache
new_user ip date bytes hit = record {
  ip = ip;
  date_downloaded = date;
  date_modified = date;
  bytes_acumulate = if hit then pos 0 else bytes;
  bytes_requested = if hit then bytes else pos 0;
}

-- The loop, and what follows it.
unfoldable pub add_or_push : Users → Bytes → ℤ → ℤ → Bool → Users
unfolding touch new_user equal
add_or_push [] ip date bytes hit = new_user ip date bytes hit ∷ []
add_or_push (u ∷ us) ip date bytes hit =
    if equal u.ip ip then touch u date bytes hit ∷ us else u ∷ add_or_push us ip date bytes hit

-- `ip == "" || date_modified <= 0`.
abbrev pub is_unknown : Bytes → ℤ → Bool
is_unknown ip date = is_empty ip || leb_ℤ date (pos 0)

abbrev pub no_address : Bytes
no_address = codes "0.0.0.0"

-- `addUserCache`.
unfoldable pub add_user_cache : Users → Bytes → ℤ → ℤ → Bool → Users × Bool
unfolding add_or_push
add_user_cache luc ip date bytes hit =
    if is_unknown ip date
    then (add_or_push luc no_address (pos 1) bytes hit, false)
    else (add_or_push luc ip date bytes hit, true)

-- A `sscanf` that finds no number leaves its variable as it was.
unfoldable pub scan_into : ℤ → Bytes → ℤ
unfolding scan_prefixed
scan_into old s = elim (scan_prefixed s) [ none ↦ old | some z ↦ z ]

-- One client from its five parts; `n` is the variable that all rounds share.
unfoldable pub parse_user : UserCache → List Bytes → Option UserCache
parse_user n (ip ∷ d ∷ m ∷ a ∷ r ∷ []) = some (record {
  ip = ip;
  date_downloaded = scan_into n.date_downloaded d;
  date_modified = scan_into n.date_modified m;
  bytes_acumulate = scan_into n.bytes_acumulate a;
  bytes_requested = scan_into n.bytes_requested r;
})
parse_user n _ = none

unfoldable pub parse_loop : UserCache → Users → List Bytes → Users × Bool
unfolding parse_user
parse_loop n lre [] = (lre, true)
parse_loop n lre (s ∷ ss) = elim (parse_user n (stringexplode s (codes ",") [])) [
  | none ↦ (lre, false)
  | some u ↦ parse_loop u (lre ++ (u ∷ [])) ss
]

-- `str2lusercache`: the clients, and whether the text was in order. `n` is a local variable of the
-- source, with any content.
unfoldable pub str2lusercache : UserCache → Bytes → Users × Bool
unfolding parse_loop scan_into
str2lusercache n str = parse_loop n [] (stringexplode str (codes ";") [])

-- `compareUserCache`, and `std::list::sort` by it: stable, the latest client first.
pub compare_user_cache : UserCache → UserCache → Bool
compare_user_cache u v = ltb_ℤ v.date_modified u.date_modified

unfoldable pub insert_sorted : UserCache → Users → Users
unfolding compare_user_cache
insert_sorted u [] = u ∷ []
insert_sorted u (x ∷ xs) = if compare_user_cache x u then x ∷ insert_sorted u xs else u ∷ x ∷ xs

unfoldable pub sort : Users → Users
unfolding insert_sorted
sort [] = []
sort (x ∷ xs) = insert_sorted x (sort xs)

-- The text that `sprintf` makes of one client. The source puts it into a buffer of 100 bytes, the
-- last of them for the end mark. Every dotted IPv4 address fits, with numbers of 64 bits. A longer
-- text is written behind the buffer, which has no defined effect; `Fits` says that this is not so.
unfoldable pub print_user : UserCache → Bytes
print_user u =
    u.ip
    ++ (b','
        ∷ (print u.date_downloaded
            ++ (b','
                ∷ (print u.date_modified
                    ++ (b',' ∷ (print u.bytes_acumulate ++ (b',' ∷ print u.bytes_requested)))))))

abbrev pub Fits : UserCache → Type 0
Fits u = length (print_user u) < 100

-- The loop behind the first client, who is written with no separator; `limit` counts the clients.
unfoldable pub print_loop : ℕ → ℕ → Bytes → Users → Bytes
unfolding print_user
print_loop lsize limit re [] = re
print_loop lsize limit re (u ∷ us) =
    let re' = re ++ (b';' ∷ print_user u) in
    let rest = print_loop lsize (limit + 1) re' us in if leb lsize (limit + 1) then re' else rest

abbrev pub limit_user_cache_db : ℕ
limit_user_cache_db = 10

abbrev pub limited : ℕ → ℕ
limited n = if ltb limit_user_cache_db n then limit_user_cache_db else n

unfoldable pub print_users : ℕ → Users → Bytes
unfolding print_loop print_user
print_users lsize [] = []
print_users lsize (u ∷ us) =
    if leb lsize 1 then print_user u else print_loop lsize 1 (print_user u) us

-- `lusercache2str`: at most `LIMIT_USER_CACHE_DB` clients, the latest ones.
unfoldable pub lusercache2str : Users → Bytes
unfolding sort print_users
lusercache2str luc = let sorted = sort luc in print_users (limited (length sorted)) sorted
