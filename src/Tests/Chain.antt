-- ===== src/Tests/Chain.antt =====
-- Runs of the mapper chain, the mappers, the slot search and the strings on small inputs.
use pam_pkcs.Base.{
  List, ℕ, ◌≡◌, refl, true, false, [], ◌∷◌, ◌++◌, none, some, Bytes, ◌↔◌, if◌then◌else◌, All, ◌≢◌,
  arith,
}
use mathlib.Core.List.{reverse}
use pam_pkcs.Base.Int.{pos, is_pos, is_neg}
use pam_pkcs.Base.Cstr.{codes, streq, strchr, starts_with, to_lower}
use pam_pkcs.Strings.{is_empty_str, split}
use pam_pkcs.MapperMgr.{
  Mgr, Loader, MapperModule, inited, find_user, match_user, load_mappers, unload_mappers,
}
use pam_pkcs.MapperMgr.Search.{FirstFinder, SomeMatches, find_user_iff, match_user_iff}
use pam_pkcs.MapperMgr.Lifecycle.{count, deinit_names, unload_mappers-load_mappers}
use pam_pkcs.Pkcs11.Slots.{find_slot_by_number_and_label}
use pam_pkcs.Mappers.Mapfile.{has_no_file, mapfile_find}
use pam_pkcs.Mappers.Mapfile.Entries.{entries_of}
use pam_pkcs.Mappers.Mapfile.Lookup.{first_value, lookup_result, mapfile_find-first_value}
use pam_pkcs.Mappers.Names.{
  defaults, map_first, cn_mapper_find_user, cn_mapper_match_user, uid_mapper_match_user,
  subject_mapper_match_user,
}
use pam_pkcs.Mappers.Names.Agreement.{cn_mapper_match_user-find_user}
use pam_pkcs.Mappers.Pwent.{Passwd, PwEnv}
use pam_pkcs.Mappers.Mail.{mail_defaults, mail_mapper_match_user}
use pam_pkcs.Mappers.Mail.Compare.{SomeAddress, mail_mapper_match_user_sound}
use pam_pkcs.Mappers.Ms.{MsSettings, ms_mapper_find_user, ms_mapper_match_user}
use pam_pkcs.Mappers.Ms.Upn.{SomeUser, ms_mapper_match_user_sound}
use pam_pkcs.Tests.{map_env, slots}

abbrev ana : Bytes
ana = codes "ana"

-- A module that finds and matches the user `ana` for every certificate.
abbrev always : MapperModule ℕ
always = record {
  dbg_level = 0;
  entries = none;
  finder = some (λ x509. (some ana, true));
  matcher = some (λ x509 login. if streq login ana then pos 1 else pos 0);
  deinit = true;
}

abbrev chain : Mgr ℕ
chain = record {
  root_mapper_list =
      record {
        module_handler = none;
        module_name = codes "always";
        module_path = none;
        module_data = always;
      }
      ∷ [];
  debug_level = 0;
  handles = [];
  deinited = [];
}

-- Two modules that are loaded with dlopen; the second is not found.
abbrev dynamic : Loader ℕ ℕ
dynamic = record {
  has_root = true;
  find_blocks = λ name. some (0 ∷ []);
  get_module = λ blk. some (codes "/lib/always.so");
  use_mappers = some (codes "always" ∷ codes "always" ∷ []);
  static_mapper_list = [];
  dlopen = λ path. some 5;
  dlsym = λ handle. some (λ blk name level. inited always level);
}

find_user_iff_example :
    (((find_user chain (some 7)).0 ≡ some ana) ↔ FirstFinder 7 ana chain.root_mapper_list)
    × ((find_user chain (some 7)).1 ≡ chain)
find_user_iff_example = find_user_iff chain 7 ana

match_user_iff_example :
    ((is_pos (match_user chain (some 7) (some ana)).0 ≡ true)
      ↔ SomeMatches 7 ana chain.root_mapper_list)
    × (is_neg (match_user chain (some 7) (some ana)).0 ≡ false)
    × ((match_user chain (some 7) (some ana)).1 ≡ chain)
match_user_iff_example = match_user_iff chain 7 ana

unload_mappers-load_mappers_example :
    (count 5 (unload_mappers (load_mappers dynamic chain)).handles ≡ count 5 chain.handles)
    × ((unload_mappers (load_mappers dynamic chain)).root_mapper_list ≡ [])
    × ((unload_mappers (load_mappers dynamic chain)).deinited
        ≡ reverse (deinit_names (load_mappers dynamic chain).root_mapper_list) ++ chain.deinited)
unload_mappers-load_mappers_example = unload_mappers-load_mappers dynamic chain 5

finds_slot : find_slot_by_number_and_label slots (pos 0) (some (codes "card")) ≡ some 0
unfolding find_slot_by_number_and_label streq
finds_slot = refl

-- A map file with a comment, an indented entry and a blank line.
abbrev users : Bytes
users = codes "# users\n  ana -> anna\n\nbob -> rob"

key_not_blank : is_empty_str (some (codes "bob")) ≡ false
unfolding is_empty_str
key_not_blank = refl

file_named : has_no_file (some (codes "users")) ≡ false
unfolding has_no_file is_empty_str streq
file_named = refl

no_null : All (λ c. c ≢ 0) users
no_null = ground arith

mapfile_find-first_value_example :
    mapfile_find map_env (some (codes "users")) (some (codes "bob")) false
    ≡ lookup_result map_env
        (codes "bob")
        (first_value map_env false (codes "bob") (entries_of users))
mapfile_find-first_value_example =
    mapfile_find-first_value map_env (codes "users") (codes "bob") users false key_not_blank
      file_named refl no_null

-- The CN mapper without a map file.
maps_cn : (cn_mapper_find_user map_env defaults (some (ana ∷ codes "bob" ∷ []))).0 ≡ some ana
unfolding cn_mapper_find_user map_first mapfile_find is_empty_str has_no_file streq
maps_cn = refl

cn_mapper_match_user-find_user_example :
    (cn_mapper_match_user map_env defaults (some (ana ∷ codes "bob" ∷ [])) ana ≡ pos 1)
    × (uid_mapper_match_user map_env defaults (some (ana ∷ codes "bob" ∷ [])) ana ≡ pos 1)
    × (subject_mapper_match_user map_env defaults (some (ana ∷ codes "bob" ∷ [])) ana ≡ pos 1)
cn_mapper_match_user-find_user_example =
    cn_mapper_match_user-find_user map_env defaults (some (ana ∷ codes "bob" ∷ [])) ana maps_cn

-- A database of one entry, whose gecos field is a common name.
abbrev user_ana : Passwd
user_ana = record { pw_name = ana; pw_gecos = codes "Ana B" }

abbrev database : PwEnv
database = record {
  entries = user_ana ∷ [];
  getpwnam = λ name. if streq name ana then some user_ana else none;
}

mail_matches :
    mail_mapper_match_user map_env mail_defaults (some (codes "Ana@example.org" ∷ [])) ana ≡ pos 1
unfolding mail_mapper_match_user mapfile_find is_empty_str has_no_file streq strchr starts_with
    to_lower
mail_matches = refl

mail_mapper_match_user_sound_example :
    SomeAddress map_env mail_defaults ana (codes "Ana@example.org" ∷ [])
mail_mapper_match_user_sound_example =
    mail_mapper_match_user_sound map_env mail_defaults (codes "Ana@example.org" ∷ []) ana
      mail_matches

splits : split (codes "a:b:c") b':' 2 ≡ some (codes "a" ∷ codes "b:c" ∷ [])
unfolding split strchr
splits = refl

-- The domain of the principal names, with a nickname.
abbrev domain : MsSettings
domain = record {
  ignorecase = true;
  ignoredomain = false;
  domainname = codes "example.org";
  domainnickname = codes "EX";
}

abbrev upns : List Bytes
upns = codes "Bob@example.com" ∷ codes "Ana@example.org" ∷ []

finds_upn : (ms_mapper_find_user domain (some upns)).0 ≡ some (codes "EX\\ana")
unfolding ms_mapper_find_user streq strchr to_lower
finds_upn = refl

matches_upn :
    ms_mapper_match_user domain (some (codes "Ana@example.org" ∷ [])) (codes "ex\\Ana")
    ≡ some (pos 1)
unfolding ms_mapper_match_user streq strchr to_lower
matches_upn = refl

ms_mapper_match_user_sound_example :
    SomeUser domain (codes "ex\\Ana") (codes "Ana@example.org" ∷ [])
ms_mapper_match_user_sound_example =
    ms_mapper_match_user_sound domain (codes "Ana@example.org" ∷ []) (codes "ex\\Ana") matches_upn
