-- ===== src/Tests/Limits.antt =====
-- Runs of `getLimitBytes` (haarp/connectiontohttp2.cpp), and instances of the theorems about it.
use haarpcache.Base.{◌≡◌, refl, true, pos, negsuc, [], ◌∷◌, ◌++◌, some}
use haarpcache.Text.{Bytes, codes, is_prefix}
use haarpcache.Text.Number.{print, atoll}
use haarpcache.Limits.{limits_of, get_limit_bytes}
use haarpcache.Limits.Lines.{Reads}
use haarpcache.Limits.First.{range_text, limits_of-Reads, limits_of_suffix}

abbrev request_line : Bytes
request_line = codes "GET /a HTTP/1.1"

abbrev host_line : Bytes
host_line = codes "Host: x"

test_limits :
    get_limit_bytes (codes "GET /a\r\nRange: bytes=5-\r\n")
    ≡ some (record {
      range_min = pos 5;
      range_max = negsuc 0;
      partial = true;
      origin_header = [];
      value = codes "Range: bytes" ∷ (codes "5-" ∷ []);
      rangeb = codes "5" ∷ [];
    })
unfolding get_limit_bytes atoll
test_limits = refl

limits_of-Reads_example :
    Reads
      (pos 5)
      (pos 25)
      (limits_of (request_line ∷ ((codes "Range: bytes=" ++ range_text 5 25) ∷ (host_line ∷ []))))
unfolding is_prefix
limits_of-Reads_example =
    limits_of-Reads (request_line ∷ []) (host_line ∷ []) 5 25 ((refl, refl), tt) (refl, tt)

limits_of_suffix_example : Reads (pos 500) (negsuc 0) (
    limits_of
      (request_line ∷ ((codes "Range: bytes=" ++ (b'-' ∷ print (pos 500))) ∷ (host_line ∷ []))))
unfolding is_prefix
limits_of_suffix_example =
    limits_of_suffix (request_line ∷ []) (host_line ∷ []) 500 ((refl, refl), tt) ((refl, refl), tt)
