-- ===== src/CertInfo/Request.antt =====
-- `cert_info` of common/cert_info.c, that chooses what is read from a certificate.
pub mod Stale
use pam_pkcs.Base.{Bool, List, [], ◌∷◌, Option, none, some, Bytes, if◌then◌else◌}
use pam_pkcs.Base.Cstr.{codes}
use pam_pkcs.Strings.Hex.{bin2hex}
use pam_pkcs.CertInfo.{
  Name, GeneralName, Entries, Entry, outside, entry, cert_info_cn, cert_info_subject,
  cert_info_issuer, cert_info_kpn, cert_info_email, cert_info_upn, cert_info_uid,
  cert_info_serial_number,
}
use pam_pkcs.CertInfo.Sshpuk.{Bignums, Pkey, cert_info_sshpuk}

-- The numbers of cert_info.h, and any other number.
pub data CertType : Type 0 where
  cert_cn cert_subject cert_kpn cert_email cert_upn cert_uid cert_puk cert_digest : CertType
  cert_sshpuk cert_pem cert_issuer cert_serial cert_key_alg_type other_type : CertType

-- What OpenSSL gives for a certificate: its names, its alternative names, none for no extension; its key; its
-- serial number in DER; the texts that PEM_write_bio_PUBKEY and PEM_write_bio_X509 write into a BIO, none
-- where one of the calls fails; the digest by an algorithm; and the name of the algorithm of its key.
pub record Cert (Bn : Type 0) : Type 0 where
  pub subject : Option Name
  pub issuer : Option Name
  pub alt_names : Option (List GeneralName)
  pub pubkey : Option (Pkey Bn)
  pub serial : Option Bytes
  pub pem_pubkey : Option Bytes
  pub pem_cert : Option Bytes
  pub digest : Bytes → Bytes
  pub key_alg : Bytes

-- The objects and the digests that OpenSSL knows.
pub record Objects : Type 0 where
  pub ms_upn : Bytes
  pub krb5 : Option Bytes
  pub is_digest : Bytes → Bool

-- A writing or reading outside of a buffer, or the array, none for a null pointer.
pub data Info : Type 0 where
  overrun : Info
  info : Option (List Bytes) → Info

abbrev pub single : Option Bytes → Option (List Bytes)
single none = none
single (some text) = some (text ∷ [])

abbrev info_of : Entry → Info
info_of outside = overrun
info_of (entry text) = info (single text)

-- With no bytes of a digest there is an array with no text.
abbrev pub get_fingerprint : Bytes → List Bytes
get_fingerprint [] = []
get_fingerprint (b ∷ md) = bin2hex (b ∷ md) ∷ []

module _ {Bn : Type 0} (lib : Bignums Bn) (objects : Objects) where
  unfoldable pub cert_info_puk : Cert Bn → Option (List Bytes)
  cert_info_puk x509 = elim x509.pubkey [ none ↦ none | some key ↦ single x509.pem_pubkey ]

  -- An algorithm that is not known is taken to be SHA-1.
  unfoldable pub cert_info_digest : Cert Bn → Bytes → Option (List Bytes)
  cert_info_digest x509 algorithm = some (
      get_fingerprint
        (x509.digest (if objects.is_digest algorithm then algorithm else codes "sha1")))

  unfoldable pub cert_info_pem : Cert Bn → Option (List Bytes)
  cert_info_pem x509 = single x509.pem_cert

  unfoldable pub cert_key_alg : Cert Bn → Option (List Bytes)
  cert_key_alg x509 = some (x509.key_alg ∷ [])

  info_digest : Cert Bn → Option Bytes → Option (List Bytes)
  unfolding cert_info_digest
  info_digest x509 none = none
  info_digest x509 (some algorithm) = cert_info_digest x509 algorithm

  -- What does not touch the static array of the addresses.
  info_plain : Cert Bn → CertType → Option Bytes → Info
  unfolding cert_info_puk cert_info_pem cert_key_alg info_digest
  info_plain x509 cert_cn algorithm = info (cert_info_cn x509.subject)
  info_plain x509 cert_subject algorithm = info (cert_info_subject x509.subject)
  info_plain x509 cert_issuer algorithm = info (cert_info_issuer x509.issuer)
  info_plain x509 cert_serial algorithm = info_of (cert_info_serial_number x509.serial)
  info_plain x509 cert_kpn algorithm = info (cert_info_kpn objects.krb5 x509.alt_names)
  info_plain x509 cert_upn algorithm = info (cert_info_upn objects.ms_upn x509.alt_names)
  info_plain x509 cert_uid algorithm = info (cert_info_uid x509.subject)
  info_plain x509 cert_puk algorithm = info (cert_info_puk x509)
  info_plain x509 cert_pem algorithm = info (cert_info_pem x509)
  info_plain x509 cert_digest algorithm = info (info_digest x509 algorithm)
  info_plain x509 cert_key_alg_type algorithm = info (cert_key_alg x509)
  info_plain x509 cert_email algorithm = info none
  info_plain x509 cert_sshpuk algorithm = info none
  info_plain x509 other_type algorithm = info none

  -- The addresses for the line of the key are asked for once the blob was encoded; no other item asks for
  -- them on the way.
  ask_emails : Cert Bn → Entry → Entries → Info × Entries
  ask_emails x509 outside entries = (overrun, entries)
  ask_emails x509 (entry none) entries = (info none, entries)
  ask_emails x509 (entry (some line)) entries =
      let (mails, entries1) = cert_info_email x509.alt_names entries in
      (info_of (cert_info_sshpuk lib x509.pubkey mails), entries1)

  -- The certificate, none for a null pointer, the item and the algorithm; and the static array of addresses.
  unfoldable pub cert_info : Option (Cert Bn) → CertType → Option Bytes → Entries → Info × Entries
  unfolding info_plain ask_emails
  cert_info none type algorithm entries = (info none, entries)
  cert_info (some x509) cert_email algorithm entries =
      let (mails, entries1) = cert_info_email x509.alt_names entries in (info mails, entries1)
  cert_info (some x509) cert_sshpuk algorithm entries =
      ask_emails x509 (cert_info_sshpuk lib x509.pubkey none) entries
  cert_info (some x509) type algorithm entries = (info_plain x509 type algorithm, entries)
