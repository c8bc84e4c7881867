-- ===== src/Tests/Lock.antt =====
-- Runs of the edition lock (haarp/connectiontohttp2.cpp), and an instance of the theorem about it.
use haarpcache.Base.{◌≡◌, refl, true, false, pos, [], ◌∷◌, some}
use haarpcache.Text.{Bytes, codes}
use haarpcache.Lock.{LockRow, Answers, lock_file}
use haarpcache.Lock.System.{System}

abbrev answering : Answers
answering = record { started = true; got = true; changed = true }

abbrev delim : Bytes
delim = codes "_-DELHAARP-_"

abbrev stale : LockRow
stale = record { file = codes "f"; modified = some 100; last_request = some 110; file_used = pos 1 }

test_lock_stale :
    (lock_file answering 141 false delim (codes "1.1.1.1") (codes "f") [] (some stale)).ret ≡ pos 1
unfolding lock_file
test_lock_stale = refl

test_lock_busy :
    (lock_file answering 140 false delim (codes "1.1.1.1") (codes "f") [] (some stale)).ret ≡ pos 0
unfolding lock_file
test_lock_busy = refl

test_lock_name :
    (lock_file answering 141 true delim (codes "1.1.1.1") (codes "f") [] (some stale)).ret ≡ pos 0
unfolding lock_file
test_lock_name = refl

abbrev at_rest : System
at_rest = record { now = 141; row = some stale; holders = [] }

-- Connection 1 locks the row, writes to it, and connection 2 asks for the lock ten seconds later.
abbrev two_connections : System
two_connections = record {
  now = 151;
  row = some (record stale { modified = some 141 });
  holders = 1 ∷ [];
}
