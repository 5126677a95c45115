-- ===== src/Uri/Generic.antt =====
-- common/uri.c: the parts of a URI, and the choice of how to fetch it, in the build without libcurl and
-- with LDAP. The parts are the strings that the pointers of `generic_uri_t` lead to.
pub mod Fetch
pub mod Roundtrip
use pam_pkcs.Base.{
  ℕ, Bool, true, false, ◌||◌, List, [], ◌∷◌, Option, none, some, Bytes, if◌then◌else◌, ◌==◌, drop,
}
use pam_pkcs.Base.Cstr.{codes, strchr, strstr, starts_with}
use pam_pkcs.Uri.{contains}

-- A null pointer is none.
pub record GenericUri : Type 0 where
  pub protocol : Bytes
  pub host : Option Bytes
  pub port : Option Bytes
  pub path : Bytes
  pub user : Option Bytes
  pub password : Option Bytes

-- What stands before the first of the characters '/' and '?', and the text from there on.
unfoldable pub strpbrk : Bytes → Option (Bytes × Bytes)
strpbrk [] = none
strpbrk (c ∷ s) =
    if c == b'/' || c == b'?'
    then some ([], c ∷ s)
    else elim (strpbrk s) [ none ↦ none | some (p, r) ↦ some (c ∷ p, r) ]

-- What stands before the first such character and after it, none where there is none.
unfoldable pub split_first : ℕ → Bytes → Bytes × Option Bytes
split_first c s = elim (strchr s c) [ none ↦ (s, none) | some (p, r) ↦ (p, some r) ]

-- The user with its password, and the host with its port.
unfoldable pub split_user : Option Bytes → Option Bytes × Option Bytes
unfolding split_first
split_user none = (none, none)
split_user (some user) = (some (split_first b':' user).0, (split_first b':' user).1)

-- The user, and the host with its port, in the two parts of an authority.
abbrev pub user_and_host : Bytes × Option Bytes → Option Bytes × Bytes
user_and_host (first, none) = (none, first)
user_and_host (first, some host) = (some first, host)

abbrev pub make_uri :
    Bytes → Bytes → Option Bytes × Option Bytes → Bytes × Option Bytes → GenericUri
make_uri protocol path (user, password) (host, port) = record {
  protocol = protocol;
  host = some host;
  port = port;
  path = path;
  user = user;
  password = password;
}

unfoldable pub split_authority : Bytes → Bytes → Bytes → GenericUri
unfolding split_first split_user
split_authority protocol authority path =
    let (user, host) = user_and_host (split_first b'@' authority) in
    make_uri protocol path (split_user user) (split_first b':' host)

-- The text after ":/": an absolute path, or the authority and the path.
unfoldable pub parse_rest : Bytes → Bytes → GenericUri
unfolding strpbrk split_authority
parse_rest protocol [] = record {
  protocol = protocol;
  host = none;
  port = none;
  path = b'/' ∷ [];
  user = none;
  password = none;
}
parse_rest protocol (c ∷ p) =
    if c == b'/'
    then elim (strpbrk p) [
      | none ↦ split_authority protocol p (b'/' ∷ [])
      | some (authority, path) ↦ split_authority protocol authority path
    ]
    else record {
      protocol = protocol;
      host = none;
      port = none;
      path = b'/' ∷ c ∷ p;
      user = none;
      password = none;
    }

-- The parts, none for a result of -1.
unfoldable pub parse_generic_uri : Bytes → Option GenericUri
unfolding parse_rest
parse_generic_uri input = elim (strstr input (codes ":/")) [
  | none ↦ none
  | some (protocol, rest) ↦ some (parse_rest protocol (drop 2 rest))
]

-- `uri_t`: the scheme, and the parts where it is "file" or "http"; `LdapUrl` is what the LDAP library
-- makes of the text.
pub data ParsedUri (LdapUrl : Type 0) : Type 0 where
  unknown_uri : ParsedUri LdapUrl
  file_uri http_uri : GenericUri → ParsedUri LdapUrl
  ldap_uri : LdapUrl → ParsedUri LdapUrl

-- The ways to fetch: ldap_url_parse, and get_file, get_http and get_ldap with the data, none for -1.
pub record Fetchers (LdapUrl : Type 0) : Type 0 where
  pub ldap_url_parse : Bytes → Option LdapUrl
  pub get_file : GenericUri → Option Bytes
  pub get_http : GenericUri → Option Bytes
  pub get_ldap : LdapUrl → Option Bytes

abbrev or_fail : {A B : Type 0} → (A → B) → Option A → Option B
or_fail f none = none
or_fail f (some a) = some (f a)

module _ {LdapUrl : Type 0} (fetch : Fetchers LdapUrl) where
  unfoldable pub parse_uri : Bytes → Option (ParsedUri LdapUrl)
  unfolding parse_generic_uri
  parse_uri str =
      if contains str (codes ":")
      then if starts_with str (codes "file:")
        then or_fail file_uri (parse_generic_uri str)
        else if starts_with str (codes "http:")
        then or_fail http_uri (parse_generic_uri str)
        else if starts_with str (codes "ldap:")
        then or_fail ldap_uri (fetch.ldap_url_parse str)
        else some unknown_uri
      else none

  fetch_parsed : ParsedUri LdapUrl → Option Bytes
  fetch_parsed unknown_uri = none
  fetch_parsed (file_uri u) = fetch.get_file u
  fetch_parsed (http_uri u) = fetch.get_http u
  fetch_parsed (ldap_uri u) = fetch.get_ldap u

  -- The data, none for a result of -1.
  unfoldable pub get_from_uri : Bytes → Option Bytes
  unfolding parse_uri fetch_parsed
  get_from_uri str = elim (parse_uri str) [ none ↦ none | some uri ↦ fetch_parsed uri ]
