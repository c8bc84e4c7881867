-- ===== src/Row.antt =====
-- What `Update` and `SubUpdate` of haarp/connectiontohttp2.cpp write to the data base row of a
-- cached file. The data base itself is a library.
use haarpcache.Base.{ℕ, ℤ}
use haarpcache.Text.{Bytes}
use haarpcache.Intervals.{Intervals, get_file_size}
use haarpcache.Intervals.Codec.{list2string}
use haarpcache.Users.{Users, lusercache2str}

-- The columns `rg`, `pos`, `filesize` and `users`; `np` is added to its column.
pub record Row : Type 0 where
  pub rg : Bytes
  pub place : Bytes
  pub filesize : ℤ
  pub np : ℕ
  pub users : Bytes

unfoldable pub row_of : Intervals → ℕ → Users → Row
row_of lranges np users = record {
  rg = (list2string lranges).0;
  place = (list2string lranges).1;
  filesize = get_file_size lranges;
  np = np;
  users = lusercache2str users;
}
