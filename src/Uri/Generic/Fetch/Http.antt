-- ===== src/Uri/Generic/Fetch/Http.antt =====
-- `get_http` of common/uri.c, in the build without libcurl.
use pam_pkcs.Base.{
  ℕ, zero, suc, ◌+◌, ◌<◌, ◌≤◌, ◌≡◌, ◌≢◌, ◌⊎◌, refl, ap, ◌∙◌, arith, true, false, List, [], ◌∷◌,
  ◌++◌, Option, none, some, Bytes, if◌then◌else◌, ltb, ◌==◌, ◌||◌, length, Bool-cases, inl, inr,
  All, if-each,
}
use pam_pkcs.Base.Cstr.{starts_with}
use pam_pkcs.Uri.Generic.{GenericUri, ParsedUri, unknown_uri, file_uri, http_uri, ldap_uri}
use pam_pkcs.Uri.Generic.Fetch.{
  Fetched, stuck, fails, fetched, Net, line_end, port_of, request, skip_header, location, body,
  Received, lost, cut, whole, recv_loop, follow, respond, receive, receive_from, send,
  get_http_from, get_http,
}
use pam_pkcs.Uri.Generic.Fetch.Receive.{
  StopsAt, IsSending, IsEndless, recv_loop-ne-cut, recv_loop-endless, recv_loop-whole,
}

module _ {LdapUrl : Type 0} (net : Net) (parse_uri : Bytes → Option (ParsedUri LdapUrl)) where
  follow-ne-stuck :
      (next : GenericUri → Fetched) (o : Option (ParsedUri LdapUrl))
      → ((uri : GenericUri) → next uri ≢ stuck)
      → follow net parse_uri next o ≢ stuck
  unfolding follow
  follow-ne-stuck next none h e = cc
  follow-ne-stuck next (some (http_uri uri)) h e = h uri e
  follow-ne-stuck next (some (file_uri uri)) h e = cc
  follow-ne-stuck next (some (ldap_uri url)) h e = cc
  follow-ne-stuck next (some unknown_uri) h e = cc

  body-ne-stuck : (s : Bytes) → body s ≢ stuck
  unfolding body
  body-ne-stuck [] e = cc
  body-ne-stuck (c ∷ s) e = cc

  respond-ne-stuck :
      (next : GenericUri → Fetched) (rec_level : ℕ) (buf : Bytes) (status : Option ℕ)
      → (rec_level ≤ 5 → (uri : GenericUri) → next uri ≢ stuck)
      → respond net parse_uri next rec_level buf status ≢ stuck
  unfolding respond
  respond-ne-stuck next rec_level buf none h = λ e. cc
  respond-ne-stuck next rec_level buf (some status) h =
      if-each (λ x. x ≢ stuck) (status == 301 || status == 302)
        (if ltb 5 rec_level then fails else follow net parse_uri next (parse_uri (location buf)))
        (if status == 200 then body (skip_header buf) else fails)
        (deeper (Bool-cases (ltb 5 rec_level)))
        (if-each (λ x. x ≢ stuck) (status == 200) (body (skip_header buf)) fails
          (body-ne-stuck (skip_header buf)) (λ e. cc))
    where
      deeper :
          (ltb 5 rec_level ≡ true) ⊎ (ltb 5 rec_level ≡ false)
          → (if ltb 5 rec_level
              then fails
              else follow net parse_uri next (parse_uri (location buf)))
            ≢ stuck
      deeper (inl k) = rw k (λ e. cc)
      deeper (inr k) =
          rw k (follow-ne-stuck next (parse_uri (location buf)) (h (ground (arith, k))))

  receive-ne-stuck :
      (next : GenericUri → Fetched) (rec_level : ℕ) (r : Received)
      → (rec_level ≤ 5 → (uri : GenericUri) → next uri ≢ stuck)
      → r ≢ cut
      → receive net parse_uri next rec_level r ≢ stuck
  unfolding receive
  receive-ne-stuck next rec_level lost h k = λ e. cc
  receive-ne-stuck next rec_level cut h k = absurd (k refl)
  receive-ne-stuck next rec_level (whole buf) h k =
      respond-ne-stuck next rec_level buf (net.status buf) h

  module _ (limit rounds : ℕ)
      (stops : (host port req : Bytes) → StopsAt limit (net.recv host port req))
      (enough : limit < rounds) where
    send-ne-stuck :
        (next : GenericUri → Fetched) (rec_level : ℕ) (uri : GenericUri) (host : Option Bytes)
        → (rec_level ≤ 5 → (ruri : GenericUri) → next ruri ≢ stuck)
        → send net parse_uri rounds next rec_level uri host ≢ stuck
    unfolding send receive_from
    send-ne-stuck next rec_level uri none h = λ e. cc
    send-ne-stuck next rec_level uri (some host) h =
        let port = port_of uri.port in
        let req = request uri.path host in
        let got = recv_loop (net.recv host port req) rounds [] 128 in
        if-each (λ x. x ≢ stuck) (net.sends host port req)
          (receive net parse_uri next rec_level got) fails
          (receive-ne-stuck next rec_level got h (
            recv_loop-ne-cut (net.recv host port req) limit rounds [] 128 (stops host port req)
              (omega arith) (omega (arith, enough))))
          (λ e. cc)

    get_http_from-ne-stuck :
        (fuel : ℕ) (uri : GenericUri) (rec_level : ℕ)
        → 7 ≤ fuel + rec_level
        → rec_level ≤ 6
        → get_http_from net parse_uri rounds fuel uri rec_level ≢ stuck
    unfolding get_http_from
    get_http_from-ne-stuck zero uri rec_level h l = absurd (omega (arith, h, l))
    get_http_from-ne-stuck (suc fuel) uri rec_level h l =
        let next =
          λ (ruri : GenericUri). get_http_from net parse_uri rounds fuel ruri (rec_level + 1) in
        let deeper : rec_level ≤ 5 → (ruri : GenericUri) → next ruri ≢ stuck = λ m ruri.
          get_http_from-ne-stuck fuel ruri (rec_level + 1) (omega (arith, h)) (omega (arith, m)) in
        if-each (λ x. x ≢ stuck) (net.connect uri.host (port_of uri.port))
          (send net parse_uri rounds next rec_level uri uri.host) fails
          (send-ne-stuck next rec_level uri uri.host deeper) (λ e. cc)

    -- If no server sends more than `limit` bytes for a request, `get_http` ends: seven requests at most
    -- are made, and more than `limit` rounds of the loop that receives are enough for each.
    pub get_http-ne-stuck : (uri : GenericUri) → get_http net parse_uri rounds uri ≢ stuck
    unfolding get_http
    get_http-ne-stuck uri = get_http_from-ne-stuck 7 uri 0 (omega arith) (omega arith)

  -- A server that is connected, takes the request and then sends for ever, no more at a time than it is
  -- asked for, keeps `get_http` in its loop, whose allocations succeed: no number of rounds is enough.
  pub get_http-endless :
      (rounds : ℕ) (uri : GenericUri) (host : Bytes)
      → uri.host ≡ some host
      → net.connect (some host) (port_of uri.port) ≡ true
      → net.sends host (port_of uri.port) (request uri.path host) ≡ true
      → IsEndless (net.recv host (port_of uri.port) (request uri.path host))
      → get_http net parse_uri rounds uri ≡ stuck
  unfolding get_http get_http_from send receive_from receive
  get_http-endless rounds uri host e connected sent h =
      rw (get_http, e, connected, sent)
        (ap (receive net parse_uri (λ ruri. get_http_from net parse_uri rounds 6 ruri 1) 0) (
          recv_loop-endless (net.recv host (port_of uri.port) (request uri.path host)) rounds [] 128
            h (omega arith)))

-- A line of a header: some characters, and no end of a line among them.
abbrev pub IsHeaderLine : Bytes → Type 0
IsHeaderLine line = (0 < length line) × All (λ c. (c ≢ 10) × (c ≢ 13)) line

-- A header, and the content behind the empty line.
abbrev pub response_of : List Bytes → Bytes → Bytes
response_of [] content = line_end ++ content
response_of (line ∷ lines) content = line ++ (line_end ++ response_of lines content)

skip_header-line :
    (line rest : Bytes)
    → All (λ c. (c ≢ 10) × (c ≢ 13)) line
    → skip_header (line ++ rest) ≡ skip_header rest
unfolding skip_header starts_with
skip_header-line [] rest h = refl
skip_header-line (c ∷ line) rest ((n, m), h) = ground (arith, n, m, skip_header-line line rest h)

-- The end of a line that is followed by another line.
skip_header-line_end :
    (c : ℕ) (rest : Bytes)
    → c ≢ 10
    → c ≢ 13
    → skip_header (line_end ++ c ∷ rest) ≡ skip_header (c ∷ rest)
unfolding skip_header starts_with
skip_header-line_end c rest n m = ground (arith, n, m)

skip_header-empty :
    (c : ℕ) (content : Bytes) → skip_header (line_end ++ (line_end ++ c ∷ content)) ≡ c ∷ content
unfolding skip_header starts_with
skip_header-empty c content = ground arith

skip_header-response_of :
    (line : Bytes) (lines : List Bytes) (c : ℕ) (content : Bytes)
    → All IsHeaderLine (line ∷ lines)
    → skip_header (response_of (line ∷ lines) (c ∷ content)) ≡ c ∷ content
skip_header-response_of line [] c content ((p, q), h) =
    skip_header-line line (line_end ++ (line_end ++ c ∷ content)) q ∙ skip_header-empty c content
skip_header-response_of line ([] ∷ lines) c content (p, ((l, q), h)) = absurd (omega (arith, l))
skip_header-response_of line ((d ∷ other) ∷ lines) c content ((p, q), ((l, ((n, m), r)), h)) =
    skip_header-line line (line_end ++ response_of ((d ∷ other) ∷ lines) (c ∷ content)) q
    ∙ skip_header-line_end d (other ++ (line_end ++ response_of lines (c ∷ content))) n m
    ∙ skip_header-response_of (d ∷ other) lines c content ((l, ((n, m), r)), h)

-- `get_http` puts the pieces together in which the host of the URI sends a response for the request, and
-- gives its content, where the status is 200, the header has one line at least, there is some content,
-- and the loop that receives may have more rounds than the response has bytes.
pub get_http-response_of :
    {LdapUrl : Type 0} (net : Net) (parse_uri : Bytes → Option (ParsedUri LdapUrl)) (rounds : ℕ)
    (uri : GenericUri) (host line : Bytes) (lines : List Bytes) (c : ℕ) (content : Bytes)
    → All IsHeaderLine (line ∷ lines)
    → uri.host ≡ some host
    → net.connect (some host) (port_of uri.port) ≡ true
    → net.sends host (port_of uri.port) (request uri.path host) ≡ true
    → IsSending
        (response_of (line ∷ lines) (c ∷ content))
        (net.recv host (port_of uri.port) (request uri.path host))
    → length (response_of (line ∷ lines) (c ∷ content)) < rounds
    → net.status (response_of (line ∷ lines) (c ∷ content)) ≡ some 200
    → get_http net parse_uri rounds uri ≡ fetched (c ∷ content)
unfolding get_http get_http_from send receive_from receive respond body
get_http-response_of net parse_uri rounds uri host line lines c content h e connected sent sending
      enough ok =
    let next = λ (ruri : GenericUri). get_http_from net parse_uri rounds 6 ruri 1 in
    let buf = response_of (line ∷ lines) (c ∷ content) in
    let received : receive net parse_uri next 0 (whole buf) ≡ fetched (c ∷ content) =
      ap (respond net parse_uri next 0 buf) ok
      ∙ ap body (skip_header-response_of line lines c content h) in
    rw (get_http, e, connected, sent)
      (ap (receive net parse_uri next 0) (
          recv_loop-whole (net.recv host (port_of uri.port) (request uri.path host)) rounds [] buf
            128 sending (omega arith) enough)
        ∙ received)
