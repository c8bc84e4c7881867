-- ===== src/Tests/Browser.antt =====
-- Runs of the analysis of a request (haarp/connectiontobrowser.cpp), and an instance of the theorem
-- about a request to a parent proxy.
use haarpcache.Base.{◌≡◌, refl, true, false, pos, negsuc, [], ◌∷◌, ◌++◌, arith}
use haarpcache.Text.{codes, contains, equal, upper_case, to_upper, is_prefix}
use haarpcache.Text.Number.{print}
use haarpcache.Http.Lines.{analyse_header, analysed}
use haarpcache.Http.Chunk.{crlf}
use haarpcache.Browser.{Client, Setup}
use haarpcache.Browser.Target.{analyse_request_line}
use haarpcache.Browser.Header.{
  browser, request_line, port_string, prepare_header_for_server, analyse_request_header_line,
}
use haarpcache.Browser.Proxied.{line_text, read_client, analyse_request_line-request_line}

abbrev empty_client : Client
empty_client = record {
  request = [];
  host = [];
  port = negsuc 0;
  ip = [];
  complete_request = [];
  request_type = [];
  request_protocol = [];
  ftp_user = [];
  ftp_pass = [];
  user_agent = [];
  content_length = negsuc 0;
  is_keep_alive = false;
  is_stream_agent = false;
  proxy_connection = false;
}

abbrev setup : Setup
setup = record {
  methods = codes "GET" ∷ (codes "POST" ∷ []);
  stream_ua = codes "MPLAYER" ∷ [];
  transparent = false;
  forwarded_ip = false;
  x_forwarded_for = true;
  ssl_tunnel = true;
}

test_request :
    (analyse_header
      (browser setup)
      (codes
        "POST http://u@a.b:8080/x?y HTTP/1.1\r\nProxy-Connection: keep-alive\r\nConnection: close\r\nUser-Agent: MPlayer\r\n")
      empty_client).state
    ≡ record empty_client {
      request = codes "/x?y";
      host = codes "a.b";
      port = pos 8080;
      request_type = codes "POST";
      request_protocol = codes "http";
      user_agent = codes "MPlayer";
      is_keep_alive = true;
      is_stream_agent = true;
      proxy_connection = true;
    }
unfolding analyse_header analyse_request_line analyse_request_header_line
test_request = refl

abbrev posting : Client
posting = record empty_client {
  request = codes "/x";
  host = codes "a.b";
  port = pos 8080;
  request_type = codes "POST";
  request_protocol = codes "http";
}

test_prepared :
    (prepare_header_for_server setup false
      (codes "1.2.3.4")
      (codes "x" ∷ (codes "Via: p" ∷ (codes "Host: q" ∷ [])))
      posting).0
    ≡ codes "POST /x HTTP/1.0\r\nHost: a.b\r\nX-Forwarded-For: 1.2.3.4\r\nVia: 1.0 Haarp, p\r\n"
unfolding prepare_header_for_server
test_prepared = refl

analyse_request_line-request_line_example :
    ((request_line setup true posting).0
      ≡ line_text (codes "POST") (codes "a.b") 8080 (codes "x") ++ crlf)
    × (analyse_request_line setup
          (line_text (codes "POST") (codes "a.b") 8080 (codes "x"))
          empty_client
        ≡ analysed
            (pos 0)
            (line_text (codes "POST") (codes "a.b") 8080 (codes "x"))
            (read_client (codes "POST") (codes "a.b") 8080 (codes "x") empty_client))
unfolding print port_string contains equal upper_case to_upper is_prefix
analyse_request_line-request_line_example =
    analyse_request_line-request_line setup setup posting empty_client 8080 (codes "x")
      (record {
        plain =
            ((refl, refl, refl, refl), ((refl, refl, refl, refl), ((refl, refl, refl, refl), tt)));
        low = omega arith;
        high = omega arith;
        not_ftp = refl;
        short = omega arith;
        small = omega arith;
        no_space = refl;
      })
      refl refl refl refl refl (codes "GET" ∷ [], [], refl, (refl, tt)) refl (omega arith)
