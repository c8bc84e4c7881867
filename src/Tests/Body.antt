-- ===== src/Tests/Body.antt =====
-- Runs of the branch of `ReadBodyPart` (haarp/connectiontohttp2.cpp) that writes the file, and
-- instances of the theorems about it.
use haarpcache.Base.{
  ℕ, ℤ, pos, pos_part, ◌+ℤ◌, ◌-ℤ◌, int_laws, parts_of_eq, ◌≡◌, refl, ap, subst, true, false, [],
  ◌∷◌, inl, inr, arith, take, drop,
}
use haarpcache.Text.{Bytes}
use haarpcache.Intervals.{Interval, get_last_node, get_point_end}
use haarpcache.Intervals.Store.{Stored}
use haarpcache.Intervals.Work.{missing, get_range_work}
use haarpcache.Body.{Clock, Download, going, open_file, read_body_part, write_at, enter}
use haarpcache.Body.Fill.{IsFaithful}
use haarpcache.Body.Sound.{IsReady}
use haarpcache.Body.Save.{IsSound}
use haarpcache.Body.Read.{read_body_part-IsSound, open_file-IsSound}
use haarpcache.Tests.Intervals.{first_block, first_block-IsStore, first_block-IsPacked}

-- Byte `y` of the origin's file is `y`.
abbrev pub test_origin : ℤ → ℕ
test_origin y = pos_part y

abbrev test_download : Download
test_download = record {
  lranges = first_block ∷ [];
  disk = test_origin;
  place = pos 0;
  bwrite = false;
  acumulate = pos 0;
  limit = pos 0;
  np = 0;
  filesended = pos 0;
  oldfilesended = pos 0;
  miss2hit = false;
  timerecord = pos 100;
  count_wait = 0;
  lusers_db = [];
  rows = [];
}

abbrev pub test_clock : Clock
test_clock = record { tested = pos 101; recorded = pos 101; booked = pos 101; stored = true }

abbrev stored_part : Interval
stored_part = record { a = pos 5; b = pos 9; position = pos 5 }

abbrev test_body : Bytes
test_body = 5 ∷ (6 ∷ (7 ∷ (8 ∷ (9 ∷ (10 ∷ (11 ∷ []))))))

test_blocks :
    (get_range_work (first_block ∷ []) (pos 5) (pos 15)).0
    ≡ stored_part ∷ (missing (pos 10) (pos 15) ∷ [])
unfolding get_range_work ◌+ℤ◌ ◌-ℤ◌
test_blocks = refl

pub test_download-IsFaithful : IsFaithful test_origin (first_block ∷ []) test_origin
test_download-IsFaithful = record {
  store = first_block-IsStore;
  packed = first_block-IsPacked;
  content = content;
}
  where
    content : (y p : ℤ) → Stored (first_block ∷ []) y p → pos_part p ≡ pos_part y
    content y p (inl (_, e)) = ap pos_part {x = p} {y = y} (omega (int_laws, parts_of_eq _ _ e))
    content y p (inr k) = absurd k

-- The state behind two bytes of the block that is not on disk.
abbrev pub written_download : Download
written_download = record test_download {
  disk = write_at (write_at test_origin (pos 5) (take 5 test_body)) (pos 10) (drop 5 test_body);
  place = pos 12;
  bwrite = true;
  acumulate = pos 2;
  limit = pos 6;
  filesended = pos 7;
}

abbrev pub written_part : Interval
written_part = record { a = pos 10; b = pos 15; position = pos 10 }

test_write :
    read_body_part
      (pos 11)
      []
      test_clock
      stored_part
      (missing (pos 10) (pos 15) ∷ [])
      (enter stored_part test_download)
      test_body
    ≡ going (record { a = pos 10; b = pos 15; position = pos 10 }) [] written_download
unfolding read_body_part enter ◌+ℤ◌ ◌-ℤ◌ get_point_end get_last_node
test_write = refl

open_file-IsSound_example :
    IsSound test_origin
      (pos 5)
      (open_file stored_part (missing (pos 10) (pos 15) ∷ []) test_download)
open_file-IsSound_example =
    open_file-IsSound test_origin (pos 5) (pos 15) stored_part (missing (pos 10) (pos 15) ∷ [])
      test_download test_download-IsFaithful (omega arith) (omega arith) test_blocks

opened-IsReady :
    IsReady test_origin stored_part
      (missing (pos 10) (pos 15) ∷ [])
      (enter stored_part test_download)
unfolding open_file
opened-IsReady =
    (open_file-IsSound test_origin (pos 5) (pos 15) stored_part (missing (pos 10) (pos 15) ∷ [])
      test_download test_download-IsFaithful (omega arith) (omega arith) test_blocks).0

read_body_part-IsSound_example : IsSound test_origin (pos 12) (
    read_body_part
      (pos 11)
      []
      test_clock
      stored_part
      (missing (pos 10) (pos 15) ∷ [])
      (enter stored_part test_download)
      test_body)
unfolding enter ◌+ℤ◌
read_body_part-IsSound_example =
    read_body_part-IsSound test_origin (pos 11) [] test_clock stored_part
      (missing (pos 10) (pos 15) ∷ []) (enter stored_part test_download) test_body opened-IsReady
      (refl, (refl, (refl, (refl, (refl, (refl, (refl, tt)))))))

pub written-IsReady : IsReady test_origin written_part [] written_download
unfolding enter ◌+ℤ◌
written-IsReady =
    (subst (λ k. IsSound test_origin (pos 12) k) test_write
      (read_body_part-IsSound test_origin (pos 11) [] test_clock stored_part
        (missing (pos 10) (pos 15) ∷ []) (enter stored_part test_download) test_body opened-IsReady
        (refl, (refl, (refl, (refl, (refl, (refl, (refl, tt))))))))).0
