-- ===== src/CertInfo/Sshpuk.antt =====
-- `cert_info_sshpuk` of common/cert_info.c: the public key as a line of OpenSSH. A result of `outside` is a
-- writing behind the 8192 bytes of the blob.

use pam_pkcs.Base.{
  ℕ, ◌+◌, ◌*◌, ◌/◌, ◌%◌, Bool, true, List, [], ◌∷◌, ◌++◌, Option, none, some, Bytes, if◌then◌else◌,
  leb, ltb, length,
}
use pam_pkcs.Base.Cstr.{codes}
use pam_pkcs.Base64.{base64_encode}
use pam_pkcs.CertInfo.{Entry, outside, entry}

-- The big numbers of OpenSSL: BN_bn2bin, BN_bin2bn, BN_is_zero and BN_cmp.
pub record Bignums (Bn : Type 0) : Type 0 where
  pub bn2bin : Bn → Bytes
  pub bin2bn : Bytes → Bn
  pub bn_is_zero : Bn → Bool
  pub bn_eq : Bn → Bn → Bool

-- A public key by its EVP_PKEY_base_id; an RSA key has n and e, a DSA key p, q, g and the public number.
-- EVP_PKEY_get1_RSA and EVP_PKEY_get1_DSA may give a null pointer.
pub data Pkey (Bn : Type 0) : Type 0 where
  rsa : Option (Bn × Bn) → Pkey Bn
  dsa : Option (Bn × Bn × Bn × Bn) → Pkey Bn
  other_key : Pkey Bn

unfoldable pub int_append : ℕ → Bytes
int_append n = n / 16777216 % 256 ∷ n / 65536 % 256 ∷ n / 256 % 256 ∷ n % 256 ∷ []

-- A null byte in front of a number whose top bit is set. A number that is not zero has a byte.
unfoldable pub with_sign : Bytes → Bytes
with_sign [] = []
with_sign (b ∷ bytes) = if leb 128 b then 0 ∷ b ∷ bytes else b ∷ bytes

-- `int_append` of the length, and the bytes.
abbrev pub counted : Bytes → Bytes
counted bytes = int_append (length bytes) ++ bytes

unfoldable pub compose_line : Bytes → Bytes → Option Bytes → Bytes
compose_line type text none = type ++ 32 ∷ text
compose_line type text (some mail) = type ++ 32 ∷ (text ++ 32 ∷ mail)

abbrev pub first_mail : Option (List Bytes) → Option Bytes
first_mail none = none
first_mail (some []) = none
first_mail (some (mail ∷ mails)) = some mail

encoded_entry : Bytes → Option Bytes → Option Bytes → Entry
unfolding compose_line
encoded_entry type none mail = entry none
encoded_entry type (some text) mail = entry (some (compose_line type text mail))

-- What is done with a blob that was written.
unfoldable pub blob_entry : Bytes → Bytes → Option (List Bytes) → Entry
unfolding encoded_entry
blob_entry type blob mails =
    let data_len = 1 + 4 * ((2 + length blob) / 3) in
    if ltb 8192 (length blob)
    then outside
    else encoded_entry type (base64_encode (some blob) true (some data_len)) (first_mail mails)

module _ {Bn : Type 0} (lib : Bignums Bn) where
  unfoldable pub bn_append : Bn → Bytes
  unfolding int_append with_sign
  bn_append bn = if lib.bn_is_zero bn then int_append 0 else counted (with_sign (lib.bn2bin bn))

  unfoldable pub rsa_blob : Bn → Bn → Bytes
  unfolding bn_append
  rsa_blob n e = counted (codes "ssh-rsa") ++ (bn_append e ++ bn_append n)

  unfoldable pub dsa_blob : Bn → Bn → Bn → Bn → Bytes
  unfolding bn_append
  dsa_blob p q g y =
      counted (codes "ssh-dss") ++ (bn_append p ++ (bn_append q ++ (bn_append g ++ bn_append y)))

  -- The key of the certificate, none for a null pointer, and what `cert_info_email` gives.
  unfoldable pub cert_info_sshpuk : Option (Pkey Bn) → Option (List Bytes) → Entry
  unfolding rsa_blob dsa_blob blob_entry
  cert_info_sshpuk none mails = entry none
  cert_info_sshpuk (some (dsa none)) mails = entry none
  cert_info_sshpuk (some (dsa (some (p, q, g, y)))) mails =
      blob_entry (codes "ssh-dss") (dsa_blob p q g y) mails
  cert_info_sshpuk (some (rsa none)) mails = entry none
  cert_info_sshpuk (some (rsa (some (n, e)))) mails =
      blob_entry (codes "ssh-rsa") (rsa_blob n e) mails
  cert_info_sshpuk (some other_key) mails = entry none
