-- ===== src/Mappers/Ms.antt =====
-- mappers/ms_mapper.c: the mapper by the Microsoft principal names of the certificate, which
-- `cert_info` gives as a list, none for a null pointer.
pub mod Upn
use pam_pkcs.Base.{
  Bool, true, false, not, List, [], ◌∷◌, ◌++◌, Option, none, some, Bytes, length, if◌then◌else◌,
  ◌==◌,
}
use pam_pkcs.Base.Int.{ℤ, pos, negsuc}
use pam_pkcs.Base.Cstr.{codes, streq, strchr}
use pam_pkcs.Strings.{clone_str, tolower_str}
use pam_pkcs.Mappers.Names.{Block}

-- The statics of the file.
pub record MsSettings : Type 0 where
  pub ignorecase : Bool
  pub ignoredomain : Bool
  pub domainname : Bytes
  pub domainnickname : Bytes

abbrev pub ms_defaults : MsSettings
ms_defaults = record {
  ignorecase = false;
  ignoredomain = false;
  domainname = [];
  domainnickname = [];
}

-- What `ms_mapper_module_init` reads.
unfoldable pub ms_settings : Option Block → MsSettings → MsSettings
ms_settings none s = s
ms_settings (some blk) s = record {
  ignorecase = blk.get_bool (codes "ignorecase") s.ignorecase;
  ignoredomain = blk.get_bool (codes "ignoredomain") s.ignoredomain;
  domainname = blk.get_str (codes "domainname") s.domainname;
  domainnickname = blk.get_str (codes "domainnickname") s.domainnickname;
}

unfoldable pub add_nickname : MsSettings → Bytes → Bytes
add_nickname s name =
    if length s.domainnickname == 0 then name else s.domainnickname ++ b'\\' ∷ name

check_parts : MsSettings → Option (Bytes × Bytes) → Option Bytes
unfolding add_nickname
check_parts s none = none
check_parts s (some (name, domain)) =
    if s.ignoredomain
    then some name
    else if streq s.domainname domain
    then some (add_nickname s name)
    else none

-- The login of a principal name, if its domain is the configured one.
unfoldable pub check_upn : MsSettings → Bytes → Option Bytes
unfolding check_parts
check_upn s str = check_parts s (strchr str b'@')

unfoldable pub fold_name : MsSettings → Bytes → Bytes
unfolding clone_str tolower_str
fold_name s str = if s.ignorecase then tolower_str str else clone_str str

unfoldable pub compare_name : MsSettings → Bytes → Bytes → Bool
unfolding fold_name
compare_name s name user = streq (fold_name s name) (fold_name s user)

find_upn : MsSettings → List Bytes → Option Bytes × Bool
unfolding check_upn fold_name
find_upn s [] = (none, false)
find_upn s (str ∷ entries) = elim (check_upn s (fold_name s str)) [
  | some res ↦ (some res, true)
  | none ↦ find_upn s entries
]

unfoldable pub ms_mapper_find_user : MsSettings → Option (List Bytes) → Option Bytes × Bool
unfolding find_upn
ms_mapper_find_user s none = (none, false)
ms_mapper_find_user s (some entries) = find_upn s entries

-- None where a null pointer is passed to `compare_name`, which reads it.
match_upn : MsSettings → Bytes → List Bytes → Option ℤ
unfolding check_upn compare_name
match_upn s user [] = some (pos 0)
match_upn s user (str ∷ entries) = elim (check_upn s (fold_name s str)) [
  | none ↦ none
  | some login ↦ elim (compare_name s login user) [
    | true ↦ some (pos 1)
    | false ↦ match_upn s user entries
  ]
]

unfoldable pub ms_mapper_match_user : MsSettings → Option (List Bytes) → Bytes → Option ℤ
unfolding match_upn
ms_mapper_match_user s none user = some (negsuc 0)
ms_mapper_match_user s (some entries) user = match_upn s user entries
