-- ===== src/Tests/Update.antt =====
-- Runs of `Update` (haarp/connectiontohttp2.cpp), and instances of the theorems about it.
use haarpcache.Base.{pos, ◌+ℤ◌, ◌-ℤ◌, ◌≡◌, refl, true, false, [], ◌∷◌}
use haarpcache.Text.{Bytes, codes}
use haarpcache.Users.{add_user_cache, lusercache2str}
use haarpcache.Row.{row_of}
use haarpcache.Intervals.{append_node, get_last_node, get_file_size}
use haarpcache.Intervals.Codec.{list2string}
use haarpcache.Text.Number.{print}
use haarpcache.Body.{Download, write_at}
use haarpcache.Tests.Intervals.{first_block}
use haarpcache.Update.{Transfer, Replies, release, send, send_miss, saved, update}
use haarpcache.Update.Once.{SameRows, update-update}
use haarpcache.Tests.Body.{written_download, written_part}

abbrev test_transfer : Transfer
test_transfer = record {
  download = written_download;
  brange = written_part;
  matched = true;
  hit = false;
  hasupdate = false;
  editing = false;
  connected = true;
  was_liberate = false;
  hit_rows = [];
  releases = 0;
}

abbrev all_done : Replies
all_done = record { stored = true; released = true; released_at_end = true }

abbrev none_released : Replies
none_released = record { stored = true; released = false; released_at_end = false }

-- The rest of the block, which ends the answer.
abbrev last_body : Bytes
last_body = 12 ∷ (13 ∷ (14 ∷ (15 ∷ [])))

abbrev complete_download : Download
complete_download = record written_download {
  lranges = (append_node (first_block ∷ []) written_part).0;
  disk = write_at written_download.disk (pos 12) last_body;
  place = pos 16;
  acumulate = pos 0;
  np = 1;
  filesended = pos 11;
}

test_update :
    (update all_done (codes "10.0.0.1") (pos 102) test_transfer).download.rows
    ≡ record {
      rg = codes "0-11";
      place = codes "0";
      filesize = pos 12;
      np = 0;
      users = codes "10.0.0.1,102,102,7,0";
    }
      ∷ []
unfolding update send send_miss release saved append_node get_last_node row_of list2string
    get_file_size lusercache2str print add_user_cache ◌+ℤ◌ ◌-ℤ◌
test_update = refl

-- The first call could not release the lock: the second one tries again.
update-update_example :
    SameRows
      (update all_done
        (codes "10.0.0.2")
        (pos 103)
        (update none_released (codes "10.0.0.1") (pos 102) test_transfer))
      (update none_released (codes "10.0.0.1") (pos 102) test_transfer)
    × ((update all_done
          (codes "10.0.0.2")
          (pos 103)
          (update none_released (codes "10.0.0.1") (pos 102) test_transfer)).releases
        ≡ 3)
unfolding update send send_miss release
update-update_example =
    update-update none_released all_done (codes "10.0.0.1") (codes "10.0.0.2") (pos 102) (pos 103)
      test_transfer
