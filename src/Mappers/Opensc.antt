-- ===== src/Mappers/Opensc.antt =====
-- mappers/opensc_mapper.c, in the build with OpenSSL. The password database and the certificates of a
-- file are parameters.
use pam_pkcs.Base.{
  ℕ, ◌-◌, ◌≡◌, ◌↔◌, Bool, true, List, [], ◌∷◌, ◌++◌, none, some, Option, Bytes, if◌then◌else◌, take,
}
use pam_pkcs.Base.Int.{ℤ, pos, negsuc}
use pam_pkcs.Base.Cstr.{codes}
use pam_pkcs.Mappers.Homes.{Passwd, Found, find_first, IsFirst, find_first_iff}

-- Whether BIO_new succeeds; the certificates that PEM_read_bio_X509 gives in turn from a file, none if it
-- cannot be opened; whether X509_cmp gives 0; getpwnam, the entries of getpwent, and PATH_MAX.
pub record Files (X509 : Type 0) : Type 0 where
  pub bio_new : Bool
  pub read_certs : Bytes → Option (List X509)
  pub x509_eq : X509 → X509 → Bool
  pub getpwnam : Bytes → Option Passwd
  pub entries : List Passwd
  pub path_max : ℕ

module _ {X509 : Type 0} (files : Files X509) where
  unfoldable pub match_cert : X509 → List X509 → ℤ
  match_cert x509 [] = pos 0
  match_cert x509 (cert ∷ certs) =
      let rest = match_cert x509 certs in if files.x509_eq cert x509 then pos 1 else rest

  match_file : X509 → Option (List X509) → ℤ
  unfolding match_cert
  match_file x509 none = pos 0
  match_file x509 (some certs) = match_cert x509 certs

  -- `snprintf` cuts the name of the file.
  unfoldable pub opensc_mapper_match_certs : X509 → Option Bytes → ℤ
  unfolding match_file
  opensc_mapper_match_certs x509 none = negsuc 0
  opensc_mapper_match_certs x509 (some home) =
      if files.bio_new
      then match_file x509 (
          files.read_certs
            (take (files.path_max - 1) (home ++ codes "/.eid/authorized_certificates")))
      else negsuc 0

  match_passwd : X509 → Option Passwd → ℤ
  unfolding opensc_mapper_match_certs
  match_passwd x509 none = negsuc 0
  match_passwd x509 (some pw) = opensc_mapper_match_certs x509 pw.pw_dir

  unfoldable pub opensc_mapper_match_user : X509 → Bytes → ℤ
  unfolding match_passwd
  opensc_mapper_match_user x509 user = match_passwd x509 (files.getpwnam user)

  unfoldable pub opensc_mapper_find_user : X509 → Found
  unfolding find_first opensc_mapper_match_certs
  opensc_mapper_find_user x509 =
      find_first (λ pw. some (opensc_mapper_match_certs x509 pw.pw_dir)) files.entries

  -- `opensc_mapper_find_user` gives the login of an entry just where the file of its home has the
  -- certificate and those of the entries before it can be looked at and have not.
  pub opensc_mapper_find_user_iff :
      (x509 : X509) (user : Bytes)
      → (opensc_mapper_find_user x509 ≡ some (some user, true))
        ↔ IsFirst (λ pw. some (opensc_mapper_match_certs x509 pw.pw_dir)) files.entries user
  unfolding opensc_mapper_find_user
  opensc_mapper_find_user_iff x509 user =
      find_first_iff (λ pw. some (opensc_mapper_match_certs x509 pw.pw_dir)) files.entries user
