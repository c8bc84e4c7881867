-- ===== src/Browser/Proxied.antt =====
-- A request line that `PrepareHeaderForServer` writes for a parent proxy, as
-- `AnalyseFirstHeaderLine` (haarp/connectiontobrowser.cpp) of another proxy reads it.
use haarpcache.Base.{
  ℕ, ◌+◌, ◌≤◌, ◌<◌, ◌≡◌, refl, subst, sym, ap, ◌∙◌, ◌==◌, Bool, true, false, ◌&&◌, pos, List, [],
  ◌∷◌, ◌++◌, arith, length, length-append, All, All-map, append_assoc,
}
use mathlib.Core.Path.{ap₂}
use haarpcache.Text.{Bytes, codes, contains, equal, is_prefix, upper_case, to_upper}
use haarpcache.Text.Find.{is_prefix_self}
use haarpcache.Text.Explode.{contains-append}
use haarpcache.Text.Number.{print}
use haarpcache.Http.Lines.{analysed}
use haarpcache.Browser.{Client, Setup}
use haarpcache.Browser.Target.{
  starts_at, parse_target, proxied_request, first_of_methods, get_host_and_port_of_request,
  analyse_request_line,
}
use haarpcache.Browser.Header.{port_string, request_line}
use haarpcache.Http.Chunk.{crlf}
use haarpcache.Browser.Port.{
  IsPlain, print-IsPlain, plain_free, equal_http, ports-read, domain, domain-none,
}
use haarpcache.Browser.Place.{
  target, whole, target-read, upper_case-append, keep_alive_same, http_found, proxied_found,
}

-- No method that stands before this one in the list begins the line.
abbrev pub FirstOf : Setup → Bytes → Bytes → Type 0
FirstOf o m t =
    (before : List Bytes) × (after : List Bytes) × (o.methods ≡ before ++ (m ∷ after))
    × All (λ x. is_prefix (x ++ (b' ' ∷ [])) (upper_case t) ≡ false) before

method_found :
    (o : Setup) (before after : List Bytes) (m t : Bytes) (d : Client)
    → All (λ x. is_prefix (x ++ (b' ' ∷ [])) (upper_case t) ≡ false) before
    → is_prefix (m ++ (b' ' ∷ [])) (upper_case t) ≡ true
    → first_of_methods o (before ++ (m ∷ after)) t d
      ≡ get_host_and_port_of_request o t (length m + 1) (record d { request_type = m })
unfolding first_of_methods
method_found o [] after m t d h k = rw k refl
method_found o (x ∷ before) after m t d h k = rw (h.0) (method_found o before after m t d h.1 k)

-- The text of a request line for a parent proxy.
abbrev pub line_text : Bytes → Bytes → ℕ → Bytes → Bytes
line_text m h p path =
    m ++ (codes " http://" ++ (h ++ (port_string (pos p) ++ ((b'/' ∷ path) ++ codes " HTTP/1.0"))))

-- What the reader knows then.
abbrev pub read_client : Bytes → Bytes → ℕ → Bytes → Client → Client
read_client m h p path d = record d {
  request_type = m;
  request_protocol = codes "http";
  request = b'/' ∷ path;
  port = pos p;
  host = h;
}

-- The parts of the request.
pub record IsRequest (h : Bytes) (p : ℕ) (path : Bytes) : Type 0 where
  pub plain : All IsPlain h
  pub low : 0 < p
  pub high : p ≤ 65535
  pub not_ftp : (p == 21) ≡ false
  pub short : length (print (pos p)) ≤ 5
  pub small : length h ≤ 256
  pub no_space : contains path b' ' ≡ false

module _ (m h path : Bytes) (p : ℕ) (r : IsRequest h p path) where
  abbrev before_host : Bytes
  before_host = (m ++ (b' ' ∷ [])) ++ codes "http://"

  line_whole : line_text m h p path ≡ whole before_host (domain h p) path
  line_whole = sym (
      append_assoc (m ++ (b' ' ∷ [])) (codes "http://")
        (target before_host (domain h p) path ++ codes " HTTP/1.0")
      ∙ append_assoc m (b' ' ∷ [])
          (codes "http://" ++ (target before_host (domain h p) path ++ codes " HTTP/1.0"))
      ∙ ap (λ k. m ++ (codes " http://" ++ k))
          (append_assoc (domain h p) (b'/' ∷ path) (codes " HTTP/1.0")
            ∙ append_assoc h (port_string (pos p)) ((b'/' ∷ path) ++ codes " HTTP/1.0")))

  size : length before_host ≡ length m + 1 + 7
  size =
      omega (arith, length-append (m ++ (b' ' ∷ [])) (codes "http://"), length-append m (b' ' ∷ []))

  protocol_found :
      starts_at (codes "HTTP://") (upper_case (whole before_host (domain h p) path)) (length m + 1)
      ≡ true
  protocol_found =
      ap₂ (λ t i. starts_at (codes "HTTP://") (upper_case t) i)
        (append_assoc (m ++ (b' ' ∷ [])) (codes "http://")
          (target before_host (domain h p) path ++ codes " HTTP/1.0"))
        (sym (length-append m (b' ' ∷ [])))
      ∙ http_found (m ++ (b' ' ∷ [])) (target before_host (domain h p) path ++ codes " HTTP/1.0")

  domain_free :
      (c : ℕ)
      → ((x : ℕ) → IsPlain x → (x == c) ≡ false)
      → (b':' == c) ≡ false
      → All (λ x. (x == c) ≡ false) (domain h p)
  domain_free c f colon =
      domain-none h p c (All-map f h r.plain) (All-map f (print (pos p)) (print-IsPlain p)) colon
        r.not_ftp

  target_free : contains (target before_host (domain h p) path) b' ' ≡ false
  unfolding contains
  target_free =
      contains-append b' ' (domain h p) (b'/' ∷ path)
        (plain_free b' ' (domain h p) (domain_free b' ' (λ x k. k.3) refl)) r.no_space

  line_read :
      (d : Client)
      → length (line_text m h p path) ≤ 4096
      → proxied_request (line_text m h p path) (length m + 1) d
        ≡ analysed (pos 0) (line_text m h p path) (record d {
          request_protocol = codes "http";
          request = b'/' ∷ path;
          port = pos p;
          host = h;
        })
  line_read d fits =
      subst
        (λ t.
          proxied_request t (length m + 1) d
          ≡ analysed (pos 0) t (record d {
            request_protocol = codes "http";
            request = b'/' ∷ path;
            port = pos p;
            host = h;
          }))
        (sym line_whole)
        (proxied_found text (length m + 1) d protocol_found
          ∙ ap
              (λ k.
                parse_target text (upper_case text) k
                  (record d { request_protocol = codes "http" }))
              (sym size)
          ∙ target-read before_host (domain h p) path (upper_case text)
              (record d { request_protocol = codes "http" }) target_free
              (domain_free b'/' (λ x k. k.2) refl) (domain_free b'@' (λ x k. k.1) refl)
              (omega (
                arith,
                fits,
                ap length line_whole,
                length-append before_host
                    (target before_host (domain h p) path ++ codes " HTTP/1.0"),
                length-append (target before_host (domain h p) path) (codes " HTTP/1.0"),
              ))
              (keep_alive_same before_host (target before_host (domain h p) path)
                (record d { request_protocol = codes "http" }))
          ∙ ports-read text h p
              (record d { request_protocol = codes "http"; request = b'/' ∷ path }) r.plain refl
              r.low r.high r.not_ftp r.short r.small)
    where
      text : Bytes
      text = whole before_host (domain h p) path

text_end :
    (m h ports path : Bytes)
    → m ++ (codes " http://" ++ (h ++ (ports ++ (path ++ codes " HTTP/1.0\r\n"))))
      ≡ (m ++ (codes " http://" ++ (h ++ (ports ++ (path ++ codes " HTTP/1.0"))))) ++ crlf
text_end m h ports path = sym (
    append_assoc m (codes " http://" ++ (h ++ (ports ++ (path ++ codes " HTTP/1.0")))) crlf
    ∙ ap (λ k. m ++ (codes " http://" ++ k))
        (append_assoc h (ports ++ (path ++ codes " HTTP/1.0")) crlf
          ∙ ap (λ k. h ++ k)
              (append_assoc ports (path ++ codes " HTTP/1.0") crlf
                ∙ ap (λ k. ports ++ k) (append_assoc path (codes " HTTP/1.0") crlf))))

line_written :
    (o : Setup) (c : Client) (p : ℕ) (path : Bytes)
    → c.request_protocol ≡ codes "http"
    → c.port ≡ pos p
    → c.request ≡ b'/' ∷ path
    → (request_line o true c).0 ≡ line_text c.request_type c.host p path ++ crlf
unfolding request_line
line_written o c p path proto port req = rw (equal_http c.request_protocol proto) (
    ap₂
      (λ a b.
        c.request_type
        ++ (codes " http://" ++ (c.host ++ (port_string a ++ (b ++ codes " HTTP/1.0\r\n")))))
      port req
    ∙ text_end c.request_type c.host (port_string (pos p)) (b'/' ∷ path))

space_kept : (rest : Bytes) → upper_case (b' ' ∷ rest) ≡ b' ' ∷ upper_case rest
unfolding upper_case to_upper
space_kept rest = refl

method_prefix :
    (m rest : Bytes)
    → upper_case m ≡ m
    → is_prefix (m ++ (b' ' ∷ [])) (upper_case (m ++ (b' ' ∷ rest))) ≡ true
method_prefix m rest h =
    ap (is_prefix (m ++ (b' ' ∷ []))) (
      upper_case-append m (b' ' ∷ rest)
      ∙ ap₂ ◌++◌ h (space_kept rest)
      ∙ sym (append_assoc m (b' ' ∷ []) (upper_case rest)))
    ∙ is_prefix_self (m ++ (b' ' ∷ [])) (upper_case rest)

neither : (a b : Bool) → b ≡ false → (a && b) ≡ false
neither true b h = h
neither false b h = refl

proxied_direct :
    (o : Setup) (t : Bytes) (start : ℕ) (d : Client)
    → equal d.request_type (codes "CONNECT") ≡ false
    → o.transparent ≡ false
    → get_host_and_port_of_request o t start d ≡ proxied_request t start d
unfolding get_host_and_port_of_request
proxied_direct o t start d h k = rw (neither o.ssl_tunnel _ h) (rw k refl)

-- A request that is written for a parent proxy is read by it.
pub analyse_request_line-request_line :
    (o parent : Setup) (c d : Client) (p : ℕ) (path : Bytes)
    → IsRequest c.host p path
    → c.request_protocol ≡ codes "http"
    → c.port ≡ pos p
    → c.request ≡ b'/' ∷ path
    → upper_case c.request_type ≡ c.request_type
    → equal c.request_type (codes "CONNECT") ≡ false
    → FirstOf parent c.request_type (line_text c.request_type c.host p path)
    → parent.transparent ≡ false
    → length (line_text c.request_type c.host p path) ≤ 4096
    → ((request_line o true c).0 ≡ line_text c.request_type c.host p path ++ crlf)
      × (analyse_request_line parent (line_text c.request_type c.host p path) d
          ≡ analysed
              (pos 0)
              (line_text c.request_type c.host p path)
              (read_client c.request_type c.host p path d))
unfolding analyse_request_line
analyse_request_line-request_line o parent c d p path r proto port req upper no_tunnel
      (before, after, ms, none_before) plain fits =
    (
      line_written o c p path proto port req,
      ap (λ l. first_of_methods parent l (line_text c.request_type c.host p path) d) ms
          ∙ method_found parent before after c.request_type (line_text c.request_type c.host p path)
              d none_before (method_prefix c.request_type _ upper)
          ∙ proxied_direct parent (line_text c.request_type c.host p path)
              (length c.request_type + 1) (record d { request_type = c.request_type }) no_tunnel
              plain
          ∙ line_read c.request_type c.host path p r (record d { request_type = c.request_type })
              fits,
    )
