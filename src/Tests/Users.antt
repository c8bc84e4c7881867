-- ===== src/Tests/Users.antt =====
-- Runs of the functions of haarp/utils.cpp on the clients of a cached file, and instances of the
-- theorems about them.
use haarpcache.Base.{◌≡◌, refl, true, false, [], ◌∷◌, arith, pos, negsuc, ◌+ℤ◌, some}
use haarpcache.Text.{codes, contains, equal}
use haarpcache.Text.Explode.{stringexplode}
use haarpcache.Text.Number.{print}
use haarpcache.Text.Number.Prefix.{scan_prefixed}
use haarpcache.Users.{
  UserCache, Users, print_user, sort, add_user_cache, str2lusercache, lusercache2str,
}
use haarpcache.Users.Add.{Distinct, find_user, find_user-add_user_cache, add_user_cache-Distinct}
use haarpcache.Users.Codec.{str2lusercache-lusercache2str}

abbrev early : UserCache
early = record {
  ip = codes "10.0.0.1";
  date_downloaded = pos 3;
  date_modified = pos 4;
  bytes_acumulate = pos 50;
  bytes_requested = pos 0;
}

abbrev late : UserCache
late = record {
  ip = codes "10.0.0.2";
  date_downloaded = pos 5;
  date_modified = pos 9;
  bytes_acumulate = pos 0;
  bytes_requested = pos 7;
}

abbrev test_users : Users
test_users = early ∷ (late ∷ [])

test_lusercache2str : lusercache2str test_users ≡ codes "10.0.0.2,5,9,0,7;10.0.0.1,3,4,50,0"
unfolding lusercache2str print
test_lusercache2str = refl

test_str2lusercache : str2lusercache early (codes "10.0.0.2,5,9,0,7") ≡ (late ∷ [], true)
unfolding str2lusercache stringexplode scan_prefixed
test_str2lusercache = refl

-- A leading 0 makes a number octal, and 0x hexadecimal.
test_prefix : str2lusercache early (codes "1.1.1.1,010,0x1F,08,-5") ≡ (
  record {
    ip = codes "1.1.1.1";
    date_downloaded = pos 8;
    date_modified = pos 31;
    bytes_acumulate = pos 0;
    bytes_requested = negsuc 4;
  }
      ∷ [],
  true,
)
unfolding str2lusercache stringexplode scan_prefixed
test_prefix = refl

test_unknown : (add_user_cache [] [] (pos 8) (pos 2) true).1 ≡ false
unfolding add_user_cache
test_unknown = refl

str2lusercache-lusercache2str_example :
    str2lusercache early (lusercache2str test_users) ≡ (late ∷ (early ∷ []), true)
unfolding sort contains print print_user
str2lusercache-lusercache2str_example = str2lusercache-lusercache2str early test_users (
  record {
    comma = record { filled = refl; free = refl };
    semicolon = record { filled = refl; free = refl };
    fits = omega arith;
  },
  (
    record {
      comma = record { filled = refl; free = refl };
      semicolon = record { filled = refl; free = refl };
      fits = omega arith;
    },
    tt,
  ),
)

find_user-add_user_cache_example :
    find_user
      (codes "10.0.0.2")
      (add_user_cache test_users (codes "10.0.0.2") (pos 12) (pos 6) true).0
    ≡ some (record late { date_modified = pos 12; bytes_requested = pos 13 })
unfolding find_user add_user_cache ◌+ℤ◌
find_user-add_user_cache_example =
    find_user-add_user_cache (codes "10.0.0.2") test_users (codes "10.0.0.2") (pos 12) (pos 6) true

add_user_cache-Distinct_example :
    Distinct (add_user_cache test_users (codes "10.0.0.3") (pos 12) (pos 6) true).0
unfolding equal
add_user_cache-Distinct_example =
    add_user_cache-Distinct test_users (codes "10.0.0.3") (pos 12) (pos 6) true
      ((refl, tt), (tt, tt))
