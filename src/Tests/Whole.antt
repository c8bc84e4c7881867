-- ===== src/Tests/Whole.antt =====
-- An answer of a server, from its text to the blocks of the request (haarp/connectiontohttp2.cpp).
use haarpcache.Base.{[], ◌&&◌, if◌then◌else◌}
use haarpcache.Text.{Bytes, codes, is_prefix}

abbrev answer : Bytes
answer =
    codes "HTTP/1.1 206 Partial Content\r\nContent-Length: 11\r\nContent-Range: bytes 5-15/700\r\n"

-- The match of the expressions for the length, on the lines of this answer.
abbrev match_length : Bytes → Bytes → Bytes
match_length er line =
    if is_prefix (codes "Content-Length:") er && is_prefix (codes "Content-Length:") line
    then line
    else []
