-- ===== src/Tests/Text.antt =====
-- Runs of the text functions of haarp/utils.cpp.
use haarpcache.Base.{◌≡◌, refl, [], ◌∷◌, pos, negsuc, List}
use haarpcache.Text.{Bytes, codes, trimstr, get_file_extension, remove_param}
use haarpcache.Text.Explode.{stringexplode, stringexplode-pieces, pieces}
use haarpcache.Text.Number.{print, atoll}

test_trim : trimstr (codes "  a b\t") ≡ codes "a b"
unfolding trimstr
test_trim = refl

test_extension : get_file_extension (codes "/x.y/clip.webm") ≡ codes "WEBM"
unfolding get_file_extension
test_extension = refl

test_remove :
    (remove_param (codes "/v?id=7&range=1-2&k=3") (codes "range=")).0 ≡ codes "/v?id=7&k=3"
unfolding remove_param
test_remove = refl

test_print : print (negsuc 1233) ≡ b'-' ∷ b'1' ∷ b'2' ∷ b'3' ∷ b'4' ∷ []
unfolding print
test_print = refl

test_atoll : atoll (b' ' ∷ b'4' ∷ b'0' ∷ b'/' ∷ b'7' ∷ []) ≡ pos 40
unfolding atoll
test_atoll = refl

abbrev test_fields : List Bytes
test_fields = codes "ab" ∷ (codes "c" ∷ [])

stringexplode-pieces_example :
    stringexplode (codes "/a//b") (codes "/") [] ≡ pieces (codes "/") [] (codes "/a//b")
stringexplode-pieces_example = stringexplode-pieces (codes "/a//b") (codes "/") []
