-- ===== src/Tests/Answer.antt =====
-- Runs of the functions of haarp/connectiontohttp2.cpp that read an answer, and of `ConvertChar` and
-- `longSeekpFile` of haarp/utils.cpp, with instances of the theorems.
use haarpcache.Base.{◌%◌, ◌^◌, ◌≡◌, refl, true, false, pos, negsuc, ◌-ℤ◌, [], ◌∷◌, none, some, All}
use haarpcache.Text.{Bytes, codes, contains, is_prefix}
use haarpcache.Text.Directory.{name_sum, convert_char}
use haarpcache.Text.Directory.Form.{IsDirectory, convert_char-IsDirectory}
use haarpcache.Seek.{beg, cur, long_seekp_file, run}
use haarpcache.Seek.Place.{IsShort, run-long_seekp_file}
use haarpcache.Text.Explode.{stringexplode}
use haarpcache.Text.Number.{print}
use haarpcache.Plan.{Plan}
use haarpcache.Answer.Size.{learn_partial-size_line}
use haarpcache.Answer.{learn_partial, is_for_cache, save_client_ip, size_loop}

test_for_cache : is_for_cache (codes "HTTP/1.1 206 Partial\r\nServer: x\r\n") ≡ true
unfolding is_for_cache
test_for_cache = refl

test_not_for_cache : is_for_cache (codes "HTTP/1.1 404 Not Found\r\nServer: x\r\n") ≡ false
unfolding is_for_cache
test_not_for_cache = refl

test_client : save_client_ip (codes "10.0.0.1 10.0.0.2") ≡ some (codes "10.0.0.2")
unfolding save_client_ip
test_client = refl

test_size :
    size_loop [] (codes "Server: x/1" ∷ (codes "Content-Range: bytes 0-9/700" ∷ []))
    ≡ some (pos 700)
unfolding size_loop
test_size = refl

test_directory : convert_char (codes "video.mp4") ≡ some (codes "1/3_38")
unfolding convert_char
test_directory = refl

test_no_directory : convert_char (codes "0001") ≡ none
unfolding convert_char
test_no_directory = refl

convert_char-IsDirectory_example :
    IsDirectory (name_sum (codes "video.mp4") % 2 ^ 32) (convert_char (codes "video.mp4"))
convert_char-IsDirectory_example = convert_char-IsDirectory (codes "video.mp4")

test_seek : long_seekp_file 5000000000 ≡ beg 2000000000 ∷ (cur 2000000000 ∷ (cur 1000000000 ∷ []))
unfolding long_seekp_file
test_seek = refl

run-long_seekp_file_example :
    (run (long_seekp_file 5000000000) 7 ≡ 5000000000) × All IsShort (long_seekp_file 5000000000)
run-long_seekp_file_example = run-long_seekp_file 5000000000 7

abbrev asked : Plan
asked = record {
  range_min = pos 0;
  range_max = negsuc 0;
  size_orig_file = pos 0;
  filesizeneto = pos 0;
  flag_change_top_range_max = false;
  flag_truncate_top_range_max = false;
  flag_truncate_old_range_max = negsuc 1;
  lranges = [];
  lrangeswork = [];
  hit = false;
  msghit = false;
  sizes = [];
  requests = 0;
}

abbrev partial_header : Bytes
partial_header =
    codes
      "HTTP/1.1 206 Partial Content\r\nServer: x/1\r\nContent-Range: bytes 0-9/700\r\nAge: 1\r\n"

learn_partial-size_line_example :
    learn_partial partial_header asked
    ≡ some (record asked { size_orig_file = pos 700; sizes = pos 700 ∷ []; range_max = pos 699 })
unfolding contains stringexplode is_prefix print ◌-ℤ◌
learn_partial-size_line_example =
    learn_partial-size_line partial_header (codes "HTTP/1.1 206 Partial Content")
      (codes "Server: x/1" ∷ []) (codes "Age: 1" ∷ []) (codes " 0-9") 700 asked refl (refl, tt) refl
