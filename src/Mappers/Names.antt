-- ===== src/Mappers/Names.antt =====
-- mappers/cn_mapper.c, mappers/uid_mapper.c, mappers/krb_mapper.c and mappers/subject_mapper.c: the
-- mappers that map a name in the certificate. What `cert_info` gives is an argument: the entries of
-- the certificate, none for a null pointer. A module is initialised once, with its file's statics.
pub mod Agreement
use pam_pkcs.Base.{ℕ, Bool, true, false, List, [], ◌∷◌, Option, none, some, Bytes, if◌then◌else◌}
use pam_pkcs.Base.Int.{ℤ, pos, negsuc, is_zero, is_pos}
use pam_pkcs.Base.Cstr.{codes}
use pam_pkcs.MapperMgr.{MapperModule, InitResult, inited}
use pam_pkcs.Mappers.Mapfile.{MapEnv, mapfile_find, mapfile_match}

-- A block of the configuration file: `scconf_get_bool` and `scconf_get_str` with their defaults.
pub record Block : Type 0 where
  pub get_bool : Bytes → Bool → Bool
  pub get_str : Bytes → Bytes → Bytes

-- The statics of a mapper's file.
pub record Settings : Type 0 where
  pub mapfile : Bytes
  pub ignorecase : Bool
  pub debug : Bool

abbrev pub defaults : Settings
defaults = record { mapfile = codes "none"; ignorecase = false; debug = false }

unfoldable pub get_debug : Option Block → Bool → Bool
get_debug none debug = debug
get_debug (some blk) debug = blk.get_bool (codes "debug") false

unfoldable pub read_settings : Option Block → Settings → Settings
unfolding get_debug
read_settings none s = s
read_settings (some blk) s = record {
  mapfile = blk.get_str (codes "mapfile") s.mapfile;
  ignorecase = blk.get_bool (codes "ignorecase") s.ignorecase;
  debug = get_debug (some blk) s.debug;
}

-- `set_debug_level(debug)`
abbrev pub level_of : Bool → ℕ
level_of true = 1
level_of false = 0

-- `entries[0]`
abbrev pub first_entry : List Bytes → Option Bytes
first_entry [] = none
first_entry (e ∷ es) = some e

module _ (env : MapEnv) where
  unfoldable pub map_first : Settings → Option (List Bytes) → Option Bytes × Bool
  map_first s none = (none, false)
  map_first s (some entries) = mapfile_find env (some s.mapfile) (first_entry entries) s.ignorecase

  -- The loop over the entries: a mapped entry that differs from the login ends it with an error.
  unfoldable pub match_entries : Settings → Bytes → List Bytes → ℤ
  match_entries s login [] = pos 0
  match_entries s login (str ∷ entries) =
      let res = mapfile_match env (some s.mapfile) (some str) login s.ignorecase in
      let rest = match_entries s login entries in
      if is_zero res then negsuc 0 else if is_pos res then pos 1 else rest

  unfoldable pub match_any : Settings → Option (List Bytes) → Bytes → ℤ
  match_any s none login = negsuc 0
  match_any s (some entries) login = match_entries s login entries

  unfoldable pub cn_mapper_find_user : Settings → Option (List Bytes) → Option Bytes × Bool
  cn_mapper_find_user s entries = map_first s entries

  unfoldable pub cn_mapper_match_user : Settings → Option (List Bytes) → Bytes → ℤ
  cn_mapper_match_user s entries login = match_any s entries login

  unfoldable pub uid_mapper_find_user : Settings → Option (List Bytes) → Option Bytes × Bool
  uid_mapper_find_user s entries = map_first s entries

  unfoldable pub uid_mapper_match_user : Settings → Option (List Bytes) → Bytes → ℤ
  uid_mapper_match_user s entries login = match_any s entries login

  -- This mapper passes no map file and minds the case.
  unfoldable pub krb_mapper_find_user : Option (List Bytes) → Option Bytes × Bool
  krb_mapper_find_user entries = map_first defaults entries

  unfoldable pub krb_mapper_match_user : Option (List Bytes) → Bytes → ℤ
  krb_mapper_match_user entries login = match_any defaults entries login

  unfoldable pub subject_mapper_find_user : Settings → Option (List Bytes) → Option Bytes × Bool
  subject_mapper_find_user s entries = map_first s entries

  -- This mapper looks at the first entry only.
  unfoldable pub subject_mapper_match_user : Settings → Option (List Bytes) → Bytes → ℤ
  subject_mapper_match_user s none login = negsuc 0
  subject_mapper_match_user s (some entries) login =
      mapfile_match env (some s.mapfile) (first_entry entries) login s.ignorecase

  module _ {X509 : Type 0} (cert_info : X509 → Option (List Bytes)) where
    -- `init_mapper_st`; the manager sets the debug level of the module.
    cn_mapper : Settings → MapperModule X509
    cn_mapper s = record {
      dbg_level = 0;
      entries = some cert_info;
      finder = some (λ x509. cn_mapper_find_user s (cert_info x509));
      matcher = some (λ x509 login. cn_mapper_match_user s (cert_info x509) login);
      deinit = true;
    }

    unfoldable pub cn_mapper_module_init : Option Block → Bytes → ℕ → InitResult X509
    unfolding cn_mapper read_settings
    cn_mapper_module_init blk name level =
        let s = read_settings blk defaults in inited (cn_mapper s) (level_of s.debug)

    uid_mapper : Settings → MapperModule X509
    uid_mapper s = record {
      dbg_level = 0;
      entries = some cert_info;
      finder = some (λ x509. uid_mapper_find_user s (cert_info x509));
      matcher = some (λ x509 login. uid_mapper_match_user s (cert_info x509) login);
      deinit = true;
    }

    unfoldable pub uid_mapper_module_init : Option Block → Bytes → ℕ → InitResult X509
    unfolding uid_mapper read_settings
    uid_mapper_module_init blk name level =
        let s = read_settings blk defaults in inited (uid_mapper s) (level_of s.debug)

    krb_mapper : MapperModule X509
    krb_mapper = record {
      dbg_level = 0;
      entries = some cert_info;
      finder = some (λ x509. krb_mapper_find_user (cert_info x509));
      matcher = some (λ x509 login. krb_mapper_match_user (cert_info x509) login);
      deinit = true;
    }

    unfoldable pub krb_mapper_module_init : Option Block → Bytes → ℕ → InitResult X509
    unfolding krb_mapper get_debug
    krb_mapper_module_init blk name level = inited krb_mapper (level_of (get_debug blk false))

    subject_mapper : Settings → MapperModule X509
    subject_mapper s = record {
      dbg_level = 0;
      entries = some cert_info;
      finder = some (λ x509. subject_mapper_find_user s (cert_info x509));
      matcher = some (λ x509 login. subject_mapper_match_user s (cert_info x509) login);
      deinit = true;
    }

    unfoldable pub subject_mapper_module_init : Option Block → Bytes → ℕ → InitResult X509
    unfolding subject_mapper read_settings
    subject_mapper_module_init blk name level =
        let s = read_settings blk defaults in inited (subject_mapper s) (level_of s.debug)
