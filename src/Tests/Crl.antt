-- ===== src/Tests/Crl.antt =====
-- Runs of the download of a CRL, with a parser that keeps what it is given.
use pam_pkcs.Base.{ℕ, ◌≡◌, refl, arith, [], ◌∷◌, ◌++◌, Option, none, some, Bytes}
use pam_pkcs.Base.Cstr.{codes}
use pam_pkcs.Base64.{code_of, encode_groups, base64_decode}
use pam_pkcs.CertVfy.Download.{begin_mark, end_mark, outside, result, minus_one, download_crl}
use pam_pkcs.CertVfy.Download.Pem.{pem, download_crl-pem}

abbrev parser : Bytes → ℕ → Option (Bytes × ℕ)
parser der size = some (der, size)

abbrev der : Bytes
der = 48 ∷ 130 ∷ 1 ∷ 255 ∷ []

abbrev site : Bytes → Option Bytes
site uri = some (pem (encode_groups der))

download_pem : download_crl parser site (codes "file:///ca.crl") ≡ result (some (der, 4))
unfolding download_crl encode_groups code_of base64_decode
download_pem = refl

download_der :
    download_crl parser
      (λ uri. some (48 ∷ codes "-----END X509 CRL-----, and no begin"))
      (codes "file:///ca.crl")
    ≡ result (some (48 ∷ codes "-----END X509 CRL-----, and no begin", 37))
unfolding download_crl
download_der = refl

download_none : download_crl parser (λ uri. none) (codes "file:///ca.crl") ≡ result none
unfolding download_crl
download_none = refl

-- The file is shorter than the first mark.
download_short : download_crl parser (λ uri. some (48 ∷ [])) (codes "file:///ca.crl") ≡ outside
unfolding download_crl
download_short = refl

-- The text has a sign that is no base64 in its first group of four.
download_damaged :
    download_crl parser
      (λ uri. some (begin_mark ++ codes "A#AA" ++ end_mark))
      (codes "file:///ca.crl")
    ≡ result (some ([], minus_one))
unfolding download_crl base64_decode
download_damaged = refl

download_crl-pem_example :
    download_crl parser site (codes "file:///ca.crl") ≡ result (some (der, 4))
download_crl-pem_example =
    download_crl-pem parser site (codes "file:///ca.crl") 48 (130 ∷ 1 ∷ 255 ∷ [])
      (omega arith, (omega arith, (omega arith, (omega arith, _)))) refl
