-- ===== src/Update/Restore.antt =====
-- What `Update` of haarp/connectiontohttp2.cpp writes to the data base row is right, for the next
-- process that reads it with `generateList`.
use haarpcache.Base.{ℕ, ℤ, ◌+ℤ◌, ◌-ℤ◌, ◌≤ℤ◌, ◌<ℤ◌, true, List, [], ◌∷◌, ◌≡◌}
use haarpcache.Intervals.{Interval, Intervals}
use haarpcache.Intervals.Store.{Stored}
use haarpcache.Intervals.Codec.{generate_list}
use haarpcache.Row.{Row}
use haarpcache.Users.{Users}
use haarpcache.Body.{Disk, Download, Result, going, complete, ended}

-- A row of the data base is right for a file, where the list of ranges was `l` and the transfer has
-- brought the bytes of `w` before byte `t`: it is read without an error, every byte that it has is on
-- disk as it is on the origin server, and it has all that the list had, and what the transfer has
-- brought.
pub record IsRestored (origin : ℤ → ℕ) (disk : Disk) (l : Intervals) (w : Interval) (t : ℤ)
    (row : Row) : Type 0 where
  pub read : (generate_list row.rg row.place).1 ≡ true
  pub content : (y p : ℤ) → Stored (generate_list row.rg row.place).0 y p → disk p ≡ origin y
  pub kept : (y p : ℤ) → Stored l y p → Stored (generate_list row.rg row.place).0 y p
  pub brought :
      (y : ℤ)
      → w.a ≤ℤ y
      → y <ℤ t
      → Stored (generate_list row.rg row.place).0 y (w.position +ℤ y -ℤ w.a)

-- The block in work, which is not read where there is none, and the state that a call of
-- `ReadBodyPart` leaves to the end of the transfer. A call that finds the body longer than the blocks
-- leaves none: it has set `r.match` to false.
pub data Leaves : Result → Interval → Download → Type 0 where
  leaves_block : (w : Interval) (ws : Intervals) (s : Download) → Leaves (going w ws s) w s
  leaves_all : (w : Interval) (s : Download) → Leaves (complete s) w s
  leaves_end : (w : Interval) (s : Download) → Leaves (ended s) w s

-- What the data base has got at last.
abbrev pub LastRow : (Row → Type 0) → List Row → Type 0
LastRow P [] = ⊥
LastRow P (x ∷ []) = P x
LastRow P (x ∷ y ∷ ys) = LastRow P (y ∷ ys)
