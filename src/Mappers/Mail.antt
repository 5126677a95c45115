-- ===== src/Mappers/Mail.antt =====
-- mappers/mail_mapper.c: the mapper by the e-mail addresses of the certificate, which `cert_info`
-- gives as a list, none for a null pointer.
pub mod Compare
use pam_pkcs.Base.{
  Bool, true, false, ◌&&◌, List, [], ◌∷◌, Option, none, some, Bytes, length, is_some, if◌then◌else◌,
  ◌==◌,
}
use pam_pkcs.Base.Int.{ℤ, pos, negsuc}
use pam_pkcs.Base.Cstr.{codes, streq, starts_with, strchr, strstr}
use pam_pkcs.Strings.{clone_str, tolower_str}
use pam_pkcs.Mappers.Mapfile.{MapEnv, mapfile_find}
use pam_pkcs.Mappers.Names.{Block, first_entry}

-- The statics of the file. The host name is read where the domain is not ignored.
pub record MailSettings : Type 0 where
  pub mapfile : Bytes
  pub ignorecase : Bool
  pub ignoredomain : Bool
  pub hostname : Bytes

abbrev pub mail_defaults : MailSettings
mail_defaults = record {
  mapfile = codes "none";
  ignorecase = true;
  ignoredomain = true;
  hostname = [];
}

-- What `mail_mapper_module_init` reads; `name` is what `gethostname` gives.
unfoldable pub mail_settings : Option Block → Bytes → MailSettings → MailSettings
mail_settings none name s = record s { hostname = if s.ignoredomain then s.hostname else name }
mail_settings (some blk) name s =
    let ignoredomain = blk.get_bool (codes "ignoredomain") s.ignoredomain in
    record {
      mapfile = blk.get_str (codes "mapfile") s.mapfile;
      ignorecase = blk.get_bool (codes "ignorecase") s.ignorecase;
      ignoredomain = ignoredomain;
      hostname = if ignoredomain then s.hostname else name;
    }

unfoldable pub check_domain : MailSettings → Bytes → Bool
check_domain s domain =
    if s.ignoredomain
    then true
    else if length s.hostname == 0
    then true
    else is_some (strstr s.hostname domain)

unfoldable pub fold_case : MailSettings → Bytes → Bytes
unfolding clone_str tolower_str
fold_case s str = if s.ignorecase then tolower_str str else clone_str str

compare_parts : MailSettings → Bytes → Bytes → Option (Bytes × Bytes) → Bool
unfolding check_domain
compare_parts s c_email c_user none = streq c_email c_user
compare_parts s c_email c_user (some (local, domain)) =
    if check_domain s domain
    then length local == length c_user && starts_with c_email c_user
    else false

unfoldable pub compare_email : MailSettings → Bytes → Bytes → Bool
unfolding compare_parts fold_case
compare_email s email user =
    let c_email = fold_case s email in
    compare_parts s c_email (fold_case s user) (strchr c_email b'@')

module _ (env : MapEnv) where
  unfoldable pub mail_mapper_find_user : MailSettings → Option (List Bytes) → Option Bytes × Bool
  mail_mapper_find_user s none = (none, false)
  mail_mapper_find_user s (some entries) =
      mapfile_find env (some s.mapfile) (first_entry entries) s.ignorecase

  match_mails : MailSettings → Bytes → List Bytes → ℤ
  unfolding compare_email
  match_mails s login [] = pos 0
  match_mails s login (item ∷ entries) =
      elim (mapfile_find env (some s.mapfile) (some item) s.ignorecase).0 [
        | none ↦ negsuc 0
        | some str ↦ elim (compare_email s str login) [
          | true ↦ pos 1
          | false ↦ match_mails s login entries
        ]
      ]

  unfoldable pub mail_mapper_match_user : MailSettings → Option (List Bytes) → Bytes → ℤ
  unfolding match_mails
  mail_mapper_match_user s none login = pos 0
  mail_mapper_match_user s (some entries) login = match_mails s login entries
