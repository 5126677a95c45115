-- ===== src/Mappers/Generic.antt =====
-- mappers/generic_mapper.c and mappers/digest_mapper.c. What `cert_info` gives is an argument: the
-- entries of the certificate up to the first null pointer, none for a null array.
pub mod Agreement
pub mod Digest
use pam_pkcs.Base.{
  Bool, true, false, ◌||◌, List, [], ◌∷◌, map, Option, none, some, Bytes, if◌then◌else◌,
}
use pam_pkcs.Base.Int.{ℤ, pos, negsuc}
use pam_pkcs.Base.Cstr.{codes, streq, strcaseeq}
use pam_pkcs.Strings.{is_empty_str}
use pam_pkcs.Mappers.Mapfile.{MapEnv, mapfile_find, mapfile_match}
use pam_pkcs.Mappers.Names.{Block, first_entry}
use pam_pkcs.Mappers.Pwent.{Passwd, search_pw_entry}

pub data CertItem : Type 0 where
  cert_cn cert_subject cert_kpn cert_email cert_upn cert_uid cert_serial : CertItem

-- The statics of the generic mapper.
pub record GenericSettings : Type 0 where
  pub mapfile : Bytes
  pub usepwent : Bool
  pub ignorecase : Bool
  pub id_type : CertItem
  pub debug : Bool

abbrev pub generic_defaults : GenericSettings
generic_defaults = record {
  mapfile = codes "none";
  usepwent = false;
  ignorecase = false;
  id_type = cert_cn;
  debug = false;
}

-- The item that the configuration names; another name leaves the item as it was.
unfoldable pub item_of : Bytes → CertItem → CertItem
item_of item id_type =
    if strcaseeq item (codes "cn")
    then cert_cn
    else if strcaseeq item (codes "subject")
    then cert_subject
    else if strcaseeq item (codes "kpn")
    then cert_kpn
    else if strcaseeq item (codes "email")
    then cert_email
    else if strcaseeq item (codes "upn")
    then cert_upn
    else if strcaseeq item (codes "uid")
    then cert_uid
    else if strcaseeq item (codes "serial")
    then cert_serial
    else id_type

unfoldable pub generic_mapper_module_init : Option Block → GenericSettings → GenericSettings
unfolding item_of
generic_mapper_module_init none s = record s { id_type = item_of (codes "cn") s.id_type }
generic_mapper_module_init (some blk) s = record {
  mapfile = blk.get_str (codes "mapfile") s.mapfile;
  usepwent = blk.get_bool (codes "use_getpwent") false;
  ignorecase = blk.get_bool (codes "ignorecase") false;
  id_type = item_of (blk.get_str (codes "cert_item") (codes "cn")) s.id_type;
  debug = blk.get_bool (codes "debug") false;
}

-- An entry is replaced where there is something to replace it with.
abbrev pub replace : Bytes → Option Bytes → Bytes
replace entry none = entry
replace entry (some res) = res

-- The first item that is not blank.
unfoldable pub first_nonblank : List Bytes → Option Bytes × Bool
first_nonblank [] = (none, false)
first_nonblank (str ∷ entries) =
    let rest = first_nonblank entries in if is_empty_str (some str) then rest else (some str, true)

unfoldable pub match_nonblank : Bool → Bytes → List Bytes → ℤ
match_nonblank ignorecase login [] = pos 0
match_nonblank ignorecase login (str ∷ entries) =
    let rest = match_nonblank ignorecase login entries in
    if is_empty_str (some str)
    then rest
    else if (if ignorecase then strcaseeq str login else streq str login)
    then pos 1
    else rest

module _ (env : MapEnv) (passwords : List Passwd) where
  unfoldable pub map_by_file : GenericSettings → List Bytes → List Bytes
  map_by_file s entries =
      if streq s.mapfile (codes "none")
      then entries
      else map
          (λ entry. replace entry (mapfile_find env (some s.mapfile) (some entry) s.ignorecase).0)
          entries

  unfoldable pub map_by_password : GenericSettings → List Bytes → List Bytes
  map_by_password s entries =
      if s.usepwent
      then map (λ entry. replace entry (search_pw_entry passwords entry s.ignorecase)) entries
      else entries

  unfoldable pub get_mapped_entries : GenericSettings → List Bytes → List Bytes
  unfolding map_by_file map_by_password
  get_mapped_entries s entries = map_by_password s (map_by_file s entries)

  unfoldable pub generic_mapper_find_user :
      GenericSettings → Option (List Bytes) → Option Bytes × Bool
  unfolding first_nonblank
  generic_mapper_find_user s none = (none, false)
  generic_mapper_find_user s (some entries) = first_nonblank (get_mapped_entries s entries)

  match_mapped : GenericSettings → Option (List Bytes) → Bytes → ℤ
  unfolding match_nonblank
  match_mapped s none login = pos 0
  match_mapped s (some entries) login =
      match_nonblank s.ignorecase login (get_mapped_entries s entries)

  unfoldable pub generic_mapper_match_user :
      GenericSettings → Option (List Bytes) → Option Bytes → ℤ
  unfolding match_mapped
  generic_mapper_match_user s entries none = pos 0
  generic_mapper_match_user s entries (some login) =
      if is_empty_str (some login) then pos 0 else match_mapped s entries login

module _ (env : MapEnv) where
  -- The digest is the first entry. The array is read in any case; none is the access to a null one.
  unfoldable pub digest_mapper_find_user :
      Bytes → Option (List Bytes) → Option (Option Bytes × Bool)
  digest_mapper_find_user mapfile none = none
  digest_mapper_find_user mapfile (some entries) =
      some (mapfile_find env (some mapfile) (first_entry entries) true)

  unfoldable pub digest_mapper_match_user : Bytes → Option (List Bytes) → Bytes → Option ℤ
  digest_mapper_match_user mapfile none login = none
  digest_mapper_match_user mapfile (some entries) login =
      some (mapfile_match env (some mapfile) (first_entry entries) login true)
