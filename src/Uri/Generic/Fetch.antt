-- ===== src/Uri/Generic/Fetch.antt =====
-- common/uri.c: get_file and get_http, in the build without libcurl. The network, the files and `sscanf` are
-- parameters; the allocations succeed.
pub mod File
pub mod Http
pub mod Receive
use pam_pkcs.Base.{
  ℕ, zero, suc, ◌+◌, ◌*◌, ◌-◌, Bool, ◌&&◌, ◌||◌, [], ◌∷◌, ◌++◌, Option, none, some, Bytes,
  if◌then◌else◌, ◌==◌, ltb, length, drop,
}
use pam_pkcs.Base.Cstr.{codes, starts_with}
use pam_pkcs.Uri.Generic.{GenericUri, ParsedUri, unknown_uri, file_uri, http_uri, ldap_uri}

-- A null pointer that is read, a result of -1, or the data; `stuck` stands for fuel that ran out.
pub data Fetched : Type 0 where
  undefined fails stuck : Fetched
  fetched : Bytes → Fetched

-- Whether a connection to a host, or to the local one, is made, and whether `send` sends the whole of a
-- request. `recv` has the host, the port and the request, the number of bytes received so far, and the
-- number of bytes that are asked for; it gives none for -1, and no bytes for 0, where the server has
-- closed the connection. `status` is what `sscanf` reads with "HTTP/%d.%d %d".
pub record Net : Type 0 where
  pub connect : Option Bytes → Bytes → Bool
  pub sends : Bytes → Bytes → Bytes → Bool
  pub recv : Bytes → Bytes → Bytes → ℕ → ℕ → Option Bytes
  pub status : Bytes → Option ℕ

-- How the loop that receives a response ends: with -1, with the bytes received, or without fuel.
pub data Received : Type 0 where
  lost cut : Received
  whole : Bytes → Received

abbrev pub line_end : Bytes
line_end = 13 ∷ 10 ∷ []

abbrev pub port_of : Option Bytes → Bytes
port_of none = codes "80"
port_of (some port) = port

unfoldable pub request : Bytes → Bytes → Bytes
request path host =
    codes "GET "
    ++ (path
        ++ (codes " HTTP/1.0"
            ++ (line_end ++ (codes "Host: " ++ (host ++ (line_end ++ line_end))))))

-- What stands before the end of the line, a space or the null.
unfoldable pub until_space : Bytes → Bytes
until_space [] = []
until_space (c ∷ s) = if c == 13 || (c == 10 || (c == 32 || c == 0)) then [] else c ∷ until_space s

-- The new location, empty where there is none.
unfoldable pub location : Bytes → Bytes
unfolding until_space
location [] = []
location (c ∷ s) =
    let rest = location s in
    if ltb 10 (length (c ∷ s)) && starts_with (c ∷ s) (codes "Location: ")
    then until_space (drop 10 (c ∷ s))
    else rest

-- What follows the first empty line, if something does.
unfoldable pub skip_header : Bytes → Bytes
skip_header [] = []
skip_header (c ∷ s) =
    let rest = skip_header s in
    if ltb 2 (length (c ∷ s)) && starts_with (c ∷ s) (10 ∷ 10 ∷ [])
    then drop 2 (c ∷ s)
    else if ltb 4 (length (c ∷ s)) && starts_with (c ∷ s) (13 ∷ 10 ∷ 13 ∷ 10 ∷ [])
    then drop 4 (c ∷ s)
    else rest

body : Bytes → Fetched
body [] = fails
body (c ∷ s) = fetched (c ∷ s)

-- The buffer is doubled where it is full.
grow : ℕ → ℕ → ℕ
grow len bufsize = if ltb len bufsize then bufsize else bufsize * 2

-- The loop `do … while (rv)`: `recv` gives what comes behind the bytes `buf`, for the rest of the
-- buffer. A round without bytes is the last.
unfoldable pub recv_loop : (ℕ → ℕ → Option Bytes) → ℕ → Bytes → ℕ → Received
unfolding grow
recv_loop recv zero buf bufsize = cut
recv_loop recv (suc fuel) buf bufsize = elim (recv (length buf) (bufsize - length buf)) [
  | none ↦ lost
  | some [] ↦ whole buf
  | some (c ∷ s) ↦
      let longer = buf ++ c ∷ s in recv_loop recv fuel longer (grow (length longer) bufsize)
]

module _ {LdapUrl : Type 0} (net : Net) (parse_uri : Bytes → Option (ParsedUri LdapUrl)) where
  follow : (GenericUri → Fetched) → Option (ParsedUri LdapUrl) → Fetched
  follow next none = fails
  follow next (some (http_uri uri)) = next uri
  follow next (some (file_uri uri)) = fails
  follow next (some (ldap_uri url)) = fails
  follow next (some unknown_uri) = fails

  -- What is done with a response; `next` fetches a new location one level deeper.
  respond : (GenericUri → Fetched) → ℕ → Bytes → Option ℕ → Fetched
  unfolding follow location body skip_header
  respond next rec_level buf none = fails
  respond next rec_level buf (some status) =
      if status == 301 || status == 302
      then if ltb 5 rec_level then fails else follow next (parse_uri (location buf))
      else if status == 200
      then body (skip_header buf)
      else fails

  receive : (GenericUri → Fetched) → ℕ → Received → Fetched
  unfolding respond
  receive next rec_level lost = fails
  receive next rec_level cut = stuck
  receive next rec_level (whole buf) = respond next rec_level buf (net.status buf)

  -- A buffer of 128 bytes is there before the first bytes come.
  receive_from : ℕ → (GenericUri → Fetched) → ℕ → Bytes → Bytes → Bytes → Fetched
  unfolding receive recv_loop
  receive_from rounds next rec_level host port req =
      if net.sends host port req
      then receive next rec_level (recv_loop (net.recv host port req) rounds [] 128)
      else fails

  -- A host that is null is passed to getaddrinfo, and then read for the request.
  send : ℕ → (GenericUri → Fetched) → ℕ → GenericUri → Option Bytes → Fetched
  unfolding receive_from request
  send rounds next rec_level uri none = undefined
  send rounds next rec_level uri (some host) =
      receive_from rounds next rec_level host (port_of uri.port) (request uri.path host)

  -- The fuel is for the levels of the recursion, and `rounds` for the loop of each.
  unfoldable pub get_http_from : ℕ → ℕ → GenericUri → ℕ → Fetched
  unfolding send
  get_http_from rounds zero uri rec_level = stuck
  get_http_from rounds (suc fuel) uri rec_level =
      let next = λ (ruri : GenericUri). get_http_from rounds fuel ruri (rec_level + 1) in
      if net.connect uri.host (port_of uri.port)
      then send rounds next rec_level uri uri.host
      else fails

  -- The levels 0 to 6 are entered, so that seven are fuel enough.
  unfoldable pub get_http : ℕ → GenericUri → Fetched
  unfolding get_http_from
  get_http rounds uri = get_http_from rounds 7 uri 0

-- The size that `lseek` gives of a file, none where it cannot be opened or measured; and the bytes that
-- `read` gives from a place, a number of them at most: none for -1, and no bytes at the end of the file.
pub record Disk : Type 0 where
  pub size : Bytes → Option ℕ
  pub read : Bytes → ℕ → ℕ → Option Bytes

prepend : Bytes → Fetched → Fetched
prepend chunk (fetched rest) = fetched (chunk ++ rest)
prepend chunk undefined = undefined
prepend chunk fails = fails
prepend chunk stuck = stuck

module _ (disk : Disk) where
  -- The loop of `get_file`: `len` bytes were read, and the result has those that come. A round of the loop
  -- reads a byte at least, so that the size is fuel enough.
  unfoldable pub read_from : ℕ → Bytes → ℕ → ℕ → Fetched
  unfolding prepend
  read_from zero path size len = if ltb len size then stuck else fetched []
  read_from (suc fuel) path size len =
      let chunk = disk.read path len (size - len) in
      if ltb len size
      then elim chunk [
        | none ↦ fails
        | some [] ↦ fails
        | some (c ∷ s) ↦ prepend (c ∷ s) (read_from fuel path size (len + length (c ∷ s)))
      ]
      else fetched []

  unfoldable pub get_file : GenericUri → Fetched
  unfolding read_from
  get_file uri = elim (disk.size uri.path) [
    | none ↦ fails
    | some size ↦ read_from size uri.path size 0
  ]
