-- ===== src/Tests/Server.antt =====
-- Runs of the analysis of a response (haarp/connectiontohttp.cpp, haarp/httphandler.cpp), and instances
-- of the theorems about it.
use haarpcache.Base.{pos, negsuc, ◌≡◌, inl, inr, refl, true, false, [], ◌∷◌, ◌++◌, arith}
use haarpcache.Text.{
  Bytes, codes, contains, find, find_if, find_last_if, upper_case, to_upper, is_prefix,
}
use haarpcache.Text.Number.{print_nat}
use haarpcache.Text.Match.{match_begin}
use haarpcache.Http.Lines.{token_of, spaced, value_from, analyse_header, header_end}
use haarpcache.Http.Lines.Tokens.{IsToken, render, run}
use haarpcache.Server.{
  Response, server, analyse_first_header_line, analyse_header_line, analyse_header_line,
  prepare_header_for_browser,
}
use haarpcache.Server.Length.{LeavesAll, length_line, analyse_header-LeavesAll}
use haarpcache.Server.Forward.{passed, connection_line, analyse_header-prepare_header_for_browser}

abbrev fresh : Response
fresh = record {
  html_response = pos 0;
  content_length = negsuc 0;
  is_keep_alive = false;
  is_image = false;
  is_chunked = false;
}

abbrev status_line : Bytes
status_line = codes "HTTP/1.1 200 OK"

abbrev keep_line : Bytes
keep_line = codes "Connection: Keep-Alive"

abbrev server_line : Bytes
server_line = codes "Server"

status_line-IsToken : IsToken status_line
unfolding contains token_of spaced find find_last_if is_prefix
status_line-IsToken = record { without_cr = refl; without_lf = refl; cut = refl; form = inl refl }

keep_line-IsToken : IsToken keep_line
unfolding contains token_of spaced find find_if find_last_if value_from is_prefix
keep_line-IsToken = record { without_cr = refl; without_lf = refl; cut = refl; form = inr refl }

server_line-IsToken : IsToken server_line
unfolding contains token_of spaced find find_last_if is_prefix
server_line-IsToken = record { without_cr = refl; without_lf = refl; cut = refl; form = inl refl }

length_line-IsToken : IsToken (length_line 42)
unfolding contains token_of spaced find find_if find_last_if value_from is_prefix print_nat
length_line-IsToken = record { without_cr = refl; without_lf = refl; cut = refl; form = inr refl }

test_response :
    (analyse_header server
      (codes "HTTP/1.1 206 OK\r\nContent-Type:image/png\r\n \t\r\nTransfer-Encoding: chunked\r\n")
      fresh).state
    ≡ record {
      html_response = pos 206;
      content_length = negsuc 0;
      is_keep_alive = false;
      is_image = true;
      is_chunked = true;
    }
unfolding analyse_header analyse_first_header_line analyse_header_line
test_response = refl

analyse_header-LeavesAll_example :
    LeavesAll (status_line ∷ (server_line ∷ (length_line 42 ∷ (keep_line ∷ [])))) (pos 42) (
      analyse_header server
        (render (status_line ∷ (server_line ∷ (length_line 42 ∷ (keep_line ∷ [])))))
        fresh)
unfolding analyse_first_header_line match_begin upper_case to_upper is_prefix print_nat
analyse_header-LeavesAll_example =
    analyse_header-LeavesAll status_line (server_line ∷ []) (keep_line ∷ []) 42 fresh
      (status_line-IsToken, (server_line-IsToken, (length_line-IsToken, (keep_line-IsToken, tt))))
      refl (record { no_length = refl; chunked_at_most = inl refl }, tt)
      (record { no_length = refl; chunked_at_most = inl refl }, tt) (omega arith)

analyse_header-prepare_header_for_browser_example :
    analyse_header server
      (header_end false true
        (prepare_header_for_browser (pos 42) (status_line ∷ (keep_line ∷ (server_line ∷ [])))))
      fresh
    ≡ run server true
        (passed (pos 42) (status_line ∷ (keep_line ∷ (server_line ∷ [])))
          ++ (connection_line false true ∷ []))
        []
        fresh
analyse_header-prepare_header_for_browser_example =
    analyse_header-prepare_header_for_browser server false true (pos 42)
      (status_line ∷ (keep_line ∷ (server_line ∷ []))) fresh
      (status_line-IsToken, (keep_line-IsToken, (server_line-IsToken, tt)))
