-- ===== src/Tools/Tokens/Listcerts.antt =====
-- tools/pkcs11_listcerts.c: the certificates of the token with their subjects, issuers and keys.
use pam_pkcs.Base.{not, List, [], ◌∷◌, Option, none, some, Bytes, if◌then◌else◌, length}
use pam_pkcs.Base.Int.{is_neg, is_one}
use pam_pkcs.Tools.Tokens.{
  Reader, Line, certificate, process_error, verify_failed, no_private_key, Desk, go, exit, crash,
  Run, ◌>>=◌, print, open_reader, read_certs, end_with,
}

-- `name[0]`, which `name` must not be null for.
abbrev pub first_name : Option (List Bytes) → Option (Option Bytes)
first_name none = none
first_name (some []) = some none
first_name (some (n ∷ ns)) = some (some n)

-- The line of a certificate, if each of the three results is more than a null pointer.
unfoldable pub line_of :
    Option (Option Bytes) → Option (Option Bytes) → Option (Option Bytes) → Option Line
line_of (some subject) (some issuer) (some key_alg) = some (certificate subject issuer key_alg)
line_of (some subject) (some issuer) none = none
line_of (some subject) none key_alg = none
line_of none issuer key_alg = none

module _ {X509 Block : Type 0} (r : Reader X509 Block) where
  unfoldable pub listcerts_login : Desk X509 → Run X509 (Unit {0})
  listcerts_login w = if is_neg r.pass_login then (exit 4, w) else (go tt, w)

  -- What is printed of the verification and of the key.
  unfoldable pub print_checks : X509 → Desk X509 → Desk X509
  print_checks cert w =
      let rv = r.env.verify_certificate cert in
      if is_neg rv
      then print process_error w
      else if not (is_one rv)
      then print verify_failed w
      else if is_neg (r.get_private_key cert)
      then print no_private_key w
      else w

  -- One round of the loop; `next` is the rest of it.
  print_certificate :
      X509 → Option Line → Desk X509 → (Desk X509 → Run X509 (Unit {0})) → Run X509 (Unit {0})
  print_certificate cert none w next = (crash, w)
  print_certificate cert (some line) w next = next (print_checks cert (print line w))

  unfoldable pub list_all : List (Option X509) → Desk X509 → Run X509 (Unit {0})
  unfolding line_of print_certificate
  list_all [] w = (go tt, w)
  list_all (none ∷ certs) w = (crash, w)
  list_all (some cert ∷ certs) w =
      print_certificate cert
        (line_of (first_name (r.subject cert)) (first_name (r.env.issuer cert))
          (first_name (r.key_alg cert)))
        w (list_all certs)

  unfoldable pub pkcs11_listcerts : Desk X509 → Run X509 (Unit {0})
  pkcs11_listcerts w =
      open_reader r w
      >>= (λ cfg w1. listcerts_login w1)
      >>= (λ u w2. read_certs r w2)
      >>= (λ certs w3. list_all certs (print (Line.found (length certs)) w3))
      >>= (λ u w4. end_with r 0 4 w4)
