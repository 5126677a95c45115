-- ===== src/Tests/Readers.antt =====
-- Runs of the loop of card_eventmgr, of what is fetched from a URI, and of the mappers that look at the homes
-- of the users.
use pam_pkcs.Base.{
  ℕ, ◌≡◌, ◌≢◌, ◌↔◌, refl, arith, inl, inr, true, false, List, [], ◌∷◌, Option, none, some, Bytes,
  if◌then◌else◌, ◌==◌, length, take, drop, ◌+◌, ◌≤◌, ap, take-drop, length-append, length-drop,
  drop-length, Bool-cases,
}
use pam_pkcs.Base.Int.{pos}
use pam_pkcs.Base.Cstr.{codes, streq}
use pam_pkcs.Tools.Eventmgr.{card_insert, card_remove}
use pam_pkcs.Tools.CardEventmgr.{
  ReaderState, Tick, Shell, polls, ended, Watch, split_names, run, start,
}
use pam_pkcs.Tools.CardEventmgr.Reports.{NeverQuits, run-reports}
use pam_pkcs.Tools.CardEventmgr.Ends.{IsKilled, run_ends}
use pam_pkcs.Uri.Generic.{GenericUri, ParsedUri}
use pam_pkcs.Uri.Generic.Fetch.{Net, Disk, fetched, stuck, request, get_http, get_file}
use pam_pkcs.Uri.Generic.Fetch.Http.{
  get_http-ne-stuck, get_http-endless, get_http-response_of, response_of,
}
use pam_pkcs.Uri.Generic.Fetch.Receive.{IsSending}
use mathlib.Core.Option.{some-injective}
use pam_pkcs.Uri.Generic.Fetch.File.{IsHonest, get_file_lem}
use pam_pkcs.Mappers.Homes.{IsFirst}
use pam_pkcs.Mappers.Opensc.{
  Files, opensc_mapper_find_user, opensc_mapper_match_certs, opensc_mapper_find_user_iff,
}

abbrev silent : Shell
silent = record { find_block = λ event. none; my_system = λ done command. pos 0 }

silent-NeverQuits : NeverQuits silent
silent-NeverQuits event block e = cc

abbrev inserted : ReaderState
inserted = record { changed = true; unknown = false; empty = false; present = true }

abbrev removed : ReaderState
removed = record { changed = true; unknown = false; empty = true; present = false }

abbrev same : ReaderState
same = record { changed = false; unknown = false; empty = true; present = false }

-- Two readers, "a" and "b".
abbrev tick : List ReaderState → Tick
tick states = record {
  scan_size = 5;
  scan_bytes = b'a' ∷ 0 ∷ b'b' ∷ 0 ∷ 0 ∷ [];
  list_ok = true;
  list_size = 5;
  status_ok = true;
  event_states = states;
  kill = false;
}

abbrev killed : Tick
killed = record (tick []) { kill = true }

abbrev watching : Watch
watching = record {
  phase = polls;
  first_loop = true;
  readers_old = 5;
  readers = (b'a' ∷ []) ∷ (b'b' ∷ []) ∷ [];
  current = none ∷ none ∷ [];
  pidfile = true;
  events = [];
  commands = [];
}

scanned : run silent (tick [] ∷ []) (start true) ≡ watching
unfolding run split_names
scanned = refl

run-reports_example :
    ((run silent
        (tick (removed ∷ inserted ∷ [])
          ∷ tick (inserted ∷ same ∷ [])
          ∷ tick (same ∷ removed ∷ [])
          ∷ [])
        watching).phase
      ≡ polls)
    × ((run silent
          (tick (removed ∷ inserted ∷ [])
            ∷ tick (inserted ∷ same ∷ [])
            ∷ tick (same ∷ removed ∷ [])
            ∷ [])
          watching).events
        ≡ card_remove ∷ card_insert ∷ [])
run-reports_example =
    run-reports silent silent-NeverQuits (tick (removed ∷ inserted ∷ []))
      (tick (inserted ∷ same ∷ []) ∷ tick (same ∷ removed ∷ []) ∷ []) watching refl
      (
        (refl, refl, refl, (inr refl, (inr refl, _))),
        (
          (refl, refl, refl, (inr refl, (inr refl, _))),
          ((refl, refl, refl, (inr refl, (inr refl, _))), _),
        ),
      )

killed-IsKilled : IsKilled 5 killed
unfolding split_names
killed-IsKilled = record {
  sizes = (refl, refl);
  names = (b'a' ∷ [], (b'b' ∷ []) ∷ [], refl);
  killed = refl;
}

run_ends_example : (run silent (killed ∷ killed ∷ killed ∷ []) (start true)).phase ≡ ended
run_ends_example =
    run_ends silent 5 killed killed killed [] (start true) killed-IsKilled killed-IsKilled
      killed-IsKilled (inl refl)

abbrev page : GenericUri
page = record {
  protocol = codes "http";
  host = some (codes "ca");
  port = none;
  path = codes "/crl";
  user = none;
  password = none;
}

-- A server that answers each request with the same response, two bytes at a time.
abbrev server : ℕ → Bytes → Net
server status buf = record {
  connect = λ host port. true;
  sends = λ host port text. true;
  recv = λ host port text len room. some (take (if room == 1 then 1 else 2) (drop len buf));
  status = λ text. some status;
}

-- A server that sends a byte in each round.
abbrev endless : Net
endless = record (server 200 []) { recv = λ host port text len room. some (1 ∷ []) }

piece_StopsAt :
    (k len c : ℕ) (s buf : Bytes)
    → some (take k (drop len buf)) ≡ some (c ∷ s)
    → len + length (c ∷ s) ≤ length buf
piece_StopsAt k len c s buf e =
    let t : length (take k (drop len buf)) ≡ length (c ∷ s) =
      ap length (some-injective (take k (drop len buf)) (c ∷ s) e) in
    let p = ap length (take-drop k (drop len buf)) in
    omega (
      arith,
      t,
      p,
      length-append (take k (drop len buf)) (drop k (drop len buf)),
      length-drop len buf,
    )

server-IsSending :
    (status : ℕ) (buf host port text : Bytes)
    → IsSending buf ((server status buf).recv host port text)
server-IsSending status buf host port text = record {
  sends = λ len room l p. elim (Bool-cases (room == 1)) [
    | inl e ↦ (1, omega arith, p, ground arith)
    | inr e ↦ (2, omega arith, ground arith, ground arith)
  ];
  closes = λ len room l. elim (Bool-cases (room == 1)) [
    | inl e ↦ rw (e, drop-length len buf l) refl
    | inr e ↦ rw (e, drop-length len buf l) refl
  ];
}

abbrev no_uri : Bytes → Option (ParsedUri Bytes)
no_uri s = none

abbrev lines : List Bytes
lines = codes "Server: x" ∷ []

abbrev crl_response : Bytes
crl_response = response_of (codes "HTTP/1.0 200 OK" ∷ lines) (48 ∷ 130 ∷ [])

get_http-ne-stuck_example : get_http (server 302 crl_response) no_uri 60 page ≢ stuck
get_http-ne-stuck_example =
    get_http-ne-stuck (server 302 crl_response) no_uri 32 60
      (λ host port text len room c s.
        piece_StopsAt (if room == 1 then 1 else 2) len c s crl_response)
      (omega arith) page

get_http-endless_example : get_http endless no_uri 3 page ≡ stuck
get_http-endless_example =
    get_http-endless endless no_uri 3 page (codes "ca") refl refl refl
      (λ len room p. (1, [], p, refl))

get_http-response_of_example :
    get_http (server 200 crl_response) no_uri 60 page ≡ fetched (48 ∷ 130 ∷ [])
get_http-response_of_example =
    get_http-response_of (server 200 crl_response) no_uri 60 page (codes "ca")
      (codes "HTTP/1.0 200 OK") lines 48 (130 ∷ []) (omega arith) refl refl refl
      (server-IsSending 200 crl_response (codes "ca") (codes "80")
        (request (codes "/crl") (codes "ca")))
      (omega arith) refl

-- A disk that gives two bytes at most.
abbrev slow : Bytes → Disk
slow file = record {
  size = λ path. some (length file);
  read = λ path len n. some (take (if n == 1 then 1 else 2) (drop len file));
}

abbrev crl : Bytes
crl = 1 ∷ 2 ∷ 3 ∷ []

slow-IsHonest : IsHonest (slow crl) (codes "/crl") crl
slow-IsHonest = record {
  sized = refl;
  reads = λ len n h p. (if n == 1 then 1 else 2, ground (arith, p), ground (arith, p), refl);
}

get_file_lem_example : get_file (slow crl) page ≡ fetched crl
get_file_lem_example = get_file_lem (slow crl) (codes "/crl") crl slow-IsHonest page refl

abbrev files : Files ℕ
files = record {
  bio_new = true;
  read_certs = λ name.
      if streq name (codes "/root/.eid/authorized_certificates") then some (5 ∷ 7 ∷ []) else none;
  x509_eq = λ a b. a == b;
  getpwnam = λ login. none;
  entries =
      record { pw_name = codes "bin"; pw_dir = some (codes "/bin") }
      ∷ record { pw_name = codes "root"; pw_dir = some (codes "/root") }
      ∷ [];
  path_max = 4096;
}

opensc_mapper_find_user_iff_example :
    (opensc_mapper_find_user files 7 ≡ some (some (codes "root"), true))
    ↔ IsFirst
        (λ pw. some (opensc_mapper_match_certs files 7 pw.pw_dir))
        files.entries
        (codes "root")
opensc_mapper_find_user_iff_example = opensc_mapper_find_user_iff files 7 (codes "root")

found_root : opensc_mapper_find_user files 7 ≡ some (some (codes "root"), true)
unfolding opensc_mapper_find_user streq
found_root = refl
