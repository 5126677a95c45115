-- ===== src/Uri/Generic/Roundtrip.antt =====
-- `parse_generic_uri` of common/uri.c on a URI that is put together from its parts.
use pam_pkcs.Base.{
  ℕ, ◌≡◌, ◌≢◌, ◌⊎◌, refl, sym, ap, ◌∙◌, arith, [], ◌∷◌, ◌++◌, Option, none, some, Bytes, All,
  All-append, drop,
}
use pam_pkcs.Base.Cstr.{codes, strchr, strstr, starts_with}
use pam_pkcs.Uri.Generic.{
  strpbrk, split_first, split_user, user_and_host, make_uri, split_authority, parse_rest,
  parse_generic_uri,
}

-- The text of a URI with these parts; the path begins with '/' or '?'.
abbrev pub with_port : Bytes → Option Bytes → Bytes
with_port host none = host
with_port host (some port) = host ++ b':' ∷ port

abbrev pub with_user : Option Bytes → Option Bytes → Bytes → Bytes
with_user none password rest = rest
with_user (some user) password rest = with_port user password ++ b'@' ∷ rest

abbrev pub authority_of : Bytes → Option Bytes → Option Bytes → Option Bytes → Bytes
authority_of host port user password = with_user user password (with_port host port)

abbrev pub uri_text : Bytes → Bytes → ℕ → Bytes → Bytes
uri_text protocol authority mark path = protocol ++ (codes "://" ++ (authority ++ mark ∷ path))

-- No character of the text is this one.
abbrev pub Without : ℕ → Bytes → Type 0
Without c s = All (λ x. x ≢ c) s

strchr_first : (c : ℕ) (p r : Bytes) → Without c p → strchr (p ++ c ∷ r) c ≡ some (p, r)
unfolding strchr
strchr_first c [] r h = ground arith
strchr_first c (x ∷ p) r (n, h) = ground (arith, n, strchr_first c p r h)

strchr-none : (c : ℕ) (s : Bytes) → Without c s → strchr s c ≡ none
unfolding strchr
strchr-none c [] h = refl
strchr-none c (x ∷ s) (n, h) = ground (arith, n, strchr-none c s h)

strstr_first :
    (p r : Bytes)
    → Without b':' p
    → strstr (p ++ (codes ":/" ++ r)) (codes ":/") ≡ some (p, codes ":/" ++ r)
unfolding strstr starts_with
strstr_first [] r h = refl
strstr_first (x ∷ p) r (n, h) = ground (arith, n, strstr_first p r h)

-- A character of a part of an authority, and one of the authority.
abbrev pub IsPart : ℕ → Type 0
IsPart x = (x ≢ b'@') × (x ≢ b'/') × (x ≢ b'?')

abbrev InAuthority : ℕ → Type 0
InAuthority x = (x ≢ b'/') × (x ≢ b'?')

abbrev pub AllSome : (ℕ → Type 0) → Option Bytes → Type 0
AllSome P none = Unit
AllSome P (some s) = All P s

All-map : (P Q : ℕ → Type 0) (s : Bytes) → ((x : ℕ) → P x → Q x) → All P s → All Q s
All-map P Q [] f h = tt
All-map P Q (x ∷ s) f (p, h) = (f x p, All-map P Q s f h)

strpbrk_first :
    (p r : Bytes) (mark : ℕ)
    → All InAuthority p
    → (mark ≡ b'/') ⊎ (mark ≡ b'?')
    → strpbrk (p ++ mark ∷ r) ≡ some (p, mark ∷ r)
unfolding strpbrk
strpbrk_first [] r mark h m = ground (arith, m)
strpbrk_first (x ∷ p) r mark (n, h) m = ground (arith, n.0, n.1, strpbrk_first p r mark h m)

split_first_found : (c : ℕ) (p r : Bytes) → Without c p → split_first c (p ++ c ∷ r) ≡ (p, some r)
unfolding split_first
split_first_found c p r h = rw (strchr_first c p r h, split_first) refl

split_first-none : (c : ℕ) (s : Bytes) → Without c s → split_first c s ≡ (s, none)
unfolding split_first
split_first-none c s h = rw (strchr-none c s h, split_first) refl

split_first-with_port :
    (host : Bytes) (port : Option Bytes)
    → Without b':' host
    → split_first b':' (with_port host port) ≡ (host, port)
split_first-with_port host none h = split_first-none b':' host h
split_first-with_port host (some port) h = split_first_found b':' host port h

IsPart-with_port :
    (host : Bytes) (port : Option Bytes)
    → All IsPart host
    → AllSome IsPart port
    → All IsPart (with_port host port)
IsPart-with_port host none h p = h
IsPart-with_port host (some port) h p = All-append IsPart host (b':' ∷ port) h (colon, p)
  where
    colon : IsPart b':'
    colon = (
      (λ e. absurd (omega (arith, e))),
      (λ e. absurd (omega (arith, e))),
      (λ e. absurd (omega (arith, e))),
    )

IsPart-Without : (s : Bytes) → All IsPart s → Without b'@' s
IsPart-Without s = All-map IsPart (λ x. x ≢ b'@') s (λ x p. p.0)

in_authority : (s : Bytes) → All IsPart s → All InAuthority s
in_authority s = All-map IsPart InAuthority s (λ x p. (p.1, p.2))

-- A user without ':' and '@', with a password that may hold ':'.
abbrev pub IsUser : Option Bytes → Option Bytes → Type 0
IsUser none password = password ≡ none
IsUser (some user) password = All IsPart user × Without b':' user × AllSome IsPart password

authority-InAuthority :
    (user password : Option Bytes) (rest : Bytes)
    → IsUser user password
    → All IsPart rest
    → All InAuthority (with_user user password rest)
authority-InAuthority none password rest u h = in_authority rest h
authority-InAuthority (some user) password rest u h =
    All-append InAuthority (with_port user password) (b'@' ∷ rest)
      (in_authority (with_port user password) (IsPart-with_port user password u.0 u.2))
      (((λ e. absurd (omega (arith, e))), (λ e. absurd (omega (arith, e)))), in_authority rest h)

split_authority_lem :
    (protocol path host : Bytes) (port user password : Option Bytes)
    → All IsPart host
    → Without b':' host
    → AllSome IsPart port
    → IsUser user password
    → split_authority protocol (authority_of host port user password) path ≡ record {
      protocol = protocol;
      host = some host;
      port = port;
      path = path;
      user = user;
      password = password;
    }
unfolding split_authority split_user
split_authority_lem protocol path host port none password h n p u =
    let first : split_first b'@' (with_port host port) ≡ (with_port host port, none) =
      split_first-none b'@' (with_port host port)
        (IsPart-Without (with_port host port) (IsPart-with_port host port h p)) in
    ap
      (λ q.
        make_uri protocol path (split_user (user_and_host q).0)
          (split_first b':' (user_and_host q).1))
      first
    ∙ ap (make_uri protocol path (none, none)) (split_first-with_port host port n)
    ∙ ap (λ q. make_uri protocol path (none, q) (host, port)) (sym u)
split_authority_lem protocol path host port (some user) password h n p u =
    let rest = with_port host port in
    let first : split_first b'@' (with_port user password ++ b'@' ∷ rest)
        ≡ (with_port user password, some rest) =
      split_first_found b'@' (with_port user password) rest
        (IsPart-Without (with_port user password) (IsPart-with_port user password u.0 u.2)) in
    ap
      (λ q.
        make_uri protocol path (split_user (user_and_host q).0)
          (split_first b':' (user_and_host q).1))
      first
    ∙ ap (make_uri protocol path (split_user (some (with_port user password))))
        (split_first-with_port host port n)
    ∙ ap (λ q. make_uri protocol path (some q.0, q.1) (host, port))
        (split_first-with_port user password u.1)

parse_rest_lem :
    (protocol authority path : Bytes) (mark : ℕ)
    → All InAuthority authority
    → (mark ≡ b'/') ⊎ (mark ≡ b'?')
    → parse_rest protocol (b'/' ∷ (authority ++ mark ∷ path))
      ≡ split_authority protocol authority (mark ∷ path)
unfolding parse_rest
parse_rest_lem protocol authority path mark h m =
    ap
      (λ o. elim o [
        | none ↦ split_authority protocol (authority ++ mark ∷ path) (b'/' ∷ [])
        | some (a, q) ↦ split_authority protocol a q
      ])
      (strpbrk_first authority path mark h m)

-- `parse_generic_uri` gives back the parts that a URI was put together from: a protocol without ':',
-- a user with a password or no user, a host, a port or none, and a path that begins with '/' or '?';
-- in all but the path there are none of '/', '?' and '@', and in the user and the host no ':'.
pub parse_generic_uri_lem :
    (protocol path host : Bytes) (mark : ℕ) (port user password : Option Bytes)
    → Without b':' protocol
    → All IsPart host
    → Without b':' host
    → AllSome IsPart port
    → IsUser user password
    → (mark ≡ b'/') ⊎ (mark ≡ b'?')
    → parse_generic_uri (uri_text protocol (authority_of host port user password) mark path)
      ≡ some (record {
        protocol = protocol;
        host = some host;
        port = port;
        path = mark ∷ path;
        user = user;
        password = password;
      })
unfolding parse_generic_uri
parse_generic_uri_lem protocol path host mark port user password c h n p u m =
    let authority = authority_of host port user password in
    ap (λ o. elim o [ none ↦ none | some (q, rest) ↦ some (parse_rest q (drop 2 rest)) ])
      (strstr_first protocol (b'/' ∷ (authority ++ mark ∷ path)) c)
    ∙ ap some (
        parse_rest_lem protocol authority path mark
          (authority-InAuthority user password (with_port host port) u
            (IsPart-with_port host port h p))
          m
        ∙ split_authority_lem protocol (mark ∷ path) host port user password h n p u)
