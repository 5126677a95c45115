-- ===== src/CertInfo/Request/Stale.antt =====
-- The addresses of an earlier certificate in what `cert_info` of common/cert_info.c gives.
use pam_pkcs.Base.{◌<◌, ◌≤◌, ◌≡◌, ap, ◌∙◌, List, ◌++◌, Option, none, some, length, drop}
use mathlib.Core.Path.{ap₂}
use pam_pkcs.CertInfo.{
  GeneralName, no_entries, cert_info_size, cert_info_max_entries, cert_info_email,
}
use pam_pkcs.CertInfo.Entries.{emails, cert_info_email-stale}
use pam_pkcs.CertInfo.Sshpuk.{Bignums}
use pam_pkcs.CertInfo.Request.{Cert, Objects, info, cert_email, cert_info}

-- Asked for the addresses of a certificate, after those of another with at least as many, `cert_info` gives
-- the addresses of the certificate, one at least, and then those of the other from there on.
pub cert_info-stale :
    {Bn : Type 0} (lib : Bignums Bn) (objects : Objects) (first second : Cert Bn)
    (names others : List GeneralName)
    → first.alt_names ≡ some names
    → second.alt_names ≡ some others
    → length (emails names) ≤ cert_info_max_entries
    → 0 < length (emails others)
    → length (emails others) ≤ length (emails names)
    → let entries =
        (cert_info lib objects (some first) cert_email none (no_entries cert_info_size)).1 in
      (cert_info lib objects (some second) cert_email none entries).0
      ≡ info (some (emails others ++ drop (length (emails others)) (emails names)))
unfolding cert_info
cert_info-stale lib objects first second names others e f h p l =
    ap₂
      (λ (x y : Option (List GeneralName)).
        info (cert_info_email y (cert_info_email x (no_entries cert_info_size)).1).0)
      e f
    ∙ ap info (cert_info_email-stale names others h p l)
