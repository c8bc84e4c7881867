-- ===== src/Update.antt =====
-- How a transfer ends: `ConnectionToHTTP2::Update` of haarp/connectiontohttp2.cpp.
pub mod Emptied
pub mod Recorded
pub mod Restore
pub mod Once
use haarpcache.Base.{
  ℕ, ◌+◌, ℤ, pos, ◌+ℤ◌, ◌-ℤ◌, eqb_ℤ, if◌then◌else◌, Bool, true, false, not, ◌&&◌, ◌||◌, List, [],
  ◌∷◌, ◌++◌,
}
use haarpcache.Text.{Bytes}
use haarpcache.Intervals.{Interval, Intervals, one, append_node}
use haarpcache.Users.{add_user_cache, lusercache2str}
use haarpcache.Row.{Row, row_of}
use haarpcache.Body.{Download}

-- What a hit sends to the data base: `bytes_requested` is added to its column.
pub record HitRow : Type 0 where
  pub bytes_requested : ℤ
  pub users : Bytes

-- The members that the call reads and changes. `brange` is the block in work; where there is none,
-- `acumulate` is 0 and it is not read. `editing` is `exists_transaction_editing_file`, `connected`
-- what `domaindb.isconnect()` says. `hit_rows` has the rows of hits that the data base took, and
-- `releases` counts the statements of `liberate_edition` that were sent to it.
pub record Transfer : Type 0 where
  pub download : Download
  pub brange : Interval
  pub matched : Bool
  pub hit : Bool
  pub hasupdate : Bool
  pub editing : Bool
  pub connected : Bool
  pub was_liberate : Bool
  pub hit_rows : List HitRow
  pub releases : ℕ

-- What the data base makes of the statements of one call: whether it takes the row, and whether it
-- releases the lock, where that is tried behind the row and at the end.
pub record Replies : Type 0 where
  pub stored : Bool
  pub released : Bool
  pub released_at_end : Bool

-- `if (!exists_transaction_editing_file) liberate_edition();`
unfoldable pub release : Bool → Transfer → Transfer
release released t =
    if t.editing || t.was_liberate
    then t
    else record t { releases = t.releases + 1; was_liberate = released }

-- The list of ranges, with the part of the block in work that has come.
unfoldable pub saved : Interval → Download → Intervals
saved w s =
    if not (eqb_ℤ s.acumulate (pos 0)) && s.bwrite
    then (append_node s.lranges (record w { b = w.a +ℤ s.acumulate -ℤ one })).0
    else s.lranges

-- `if (!hasupdate)`, for a miss.
unfoldable pub send_miss : Replies → Bytes → ℤ → Transfer → Transfer
unfolding row_of release
send_miss replies ip_browser now t =
    let s = t.download in
    let users =
      (add_user_cache s.lusers_db ip_browser now (s.filesended -ℤ s.oldfilesended) false).0 in
    let rows =
      if t.connected && replies.stored
      then s.rows ++ (row_of s.lranges s.np users ∷ [])
      else s.rows in
    if t.hasupdate
    then t
    else release replies.released
        (record t { download = record s { lusers_db = users; rows = rows }; hasupdate = true })

-- `if (!hasupdate && filesended)`, for a hit.
unfoldable pub send_hit : Replies → Bytes → ℤ → Transfer → Transfer
send_hit replies ip_browser now t =
    let s = t.download in
    let users = (add_user_cache s.lusers_db ip_browser now s.filesended true).0 in
    let row : HitRow = record { bytes_requested = s.filesended; users = lusercache2str users } in
    if not t.hasupdate && not (eqb_ℤ s.filesended (pos 0))
    then record t {
      download = record s { lusers_db = users };
      hit_rows = if t.connected && replies.stored then t.hit_rows ++ (row ∷ []) else t.hit_rows;
      hasupdate = true;
    }
    else t

-- The two branches.
unfoldable pub send : Replies → Bytes → ℤ → Transfer → Transfer
send replies ip_browser now t =
    if t.matched && not t.hit
    then (let t' =
          send_miss replies ip_browser now
            (record t { download = record (t.download) { lranges = saved t.brange t.download } }) in
        record t' { download = record (t'.download) { acumulate = pos 0 } })
    else if t.hit
    then send_hit replies ip_browser now t
    else t

unfoldable pub update : Replies → Bytes → ℤ → Transfer → Transfer
update replies ip_browser now t =
    let t' = send replies ip_browser now t in
    let t'' = if t'.matched then release replies.released_at_end t' else t' in
    record t'' { download = record (t''.download) { lranges = [] } }
