-- ===== src/Tests/Plugins.antt =====
-- Runs of the plugins of haarp/plugins, and instances of the theorems about them.
use haarpcache.Base.{◌≡◌, refl, true, pos, ◌∷◌, ◌++◌, some}
use haarpcache.Text.{codes, contains, find}
use haarpcache.Plugins.{no_match, get_filename, hgetmatch2, answer}
use haarpcache.Plugins.Name.{get_filename_escapes, hgetmatch2-with_query}
use haarpcache.Plugins.Sites.Games.{kixeye_com}
use haarpcache.Plugins.Sites.Music.{hulkshare_com}
use haarpcache.Plugins.Sites.Others.{ziddu_com}

test_hulkshare :
    hgetmatch2 hulkshare_com (codes "http://cdn07.hulkshare.com/dev7/a.mp3?key=f07")
    ≡ some (record {
      matched = true;
      domain = codes "hulkshare";
      file = codes "a.mp3";
      range_min = pos 0;
      range_max = pos 0;
    })
unfolding hgetmatch2 answer get_filename
test_hulkshare = refl

-- The `or` of the plugin lets in a picture of any site.
test_kixeye :
    hgetmatch2 kixeye_com (codes "http://x.org/a.png")
    ≡ some (record {
      matched = true;
      domain = codes "GAMESF_kixeye";
      file = codes "a.png";
      range_min = pos 0;
      range_max = pos 0;
    })
unfolding hgetmatch2 answer get_filename
test_kixeye = refl

test_ziddu : hgetmatch2 ziddu_com (codes "http://x.org/a") ≡ some no_match
unfolding hgetmatch2 get_filename
test_ziddu = refl

get_filename_escapes_example :
    get_filename (codes "x.org/a" ++ (b'?' ∷ (b'/' ∷ (b'?' ∷ codes "../../b"))))
    ≡ some (codes "../../b")
unfolding contains
get_filename_escapes_example =
    get_filename_escapes (codes "x.org/a") (codes "../../b") (record { filled = refl; free = refl })
      (record { filled = refl; free = refl })

hgetmatch2-with_query_example :
    hgetmatch2 hulkshare_com
      ((codes "x.hulkshare.com" ++ (b'/' ∷ codes "a.mp3")) ++ (b'?' ∷ codes "k=1"))
    ≡ some (record {
      matched = true;
      domain = codes "hulkshare";
      file = codes "a.mp3";
      range_min = pos 0;
      range_max = pos 0;
    })
unfolding contains find
hgetmatch2-with_query_example =
    hgetmatch2-with_query hulkshare_com (codes "x.hulkshare.com") (codes "a.mp3")
      (some (codes "k=1")) (record { filled = refl; free = refl })
      (record { filled = refl; free = refl }) (record { filled = refl; free = refl })
