-- ===== src/Tests.antt =====
-- Runs of the code on small inputs: a user `ana` whose card is in the first of two slots.
mod Chain
mod Token
mod Settings
mod Crl
mod Keys
mod Readers
mod Cards
use pam_pkcs.Base.{
  ℕ, ◌≡◌, refl, Bool, true, false, List, [], ◌∷◌, Option, none, some, Bytes, All, ◌⊎◌, ◌↔◌,
  if◌then◌else◌, ◌==◌,
}
use pam_pkcs.Base.Int.{ℤ, pos, negsuc, is_pos}
use pam_pkcs.Base.Cstr.{codes, streq, strstr}
use pam_pkcs.Strings.{is_empty_str}
use pam_pkcs.Uri.{directory, regular, is_dir, is_file, stat_file}
use pam_pkcs.CertVfy.{
  CertPolicy, crlp_none, crlp_auto, Source, hash_dir, loaded, pem, asn1, other_error, Ossl,
  setup_store, verify_certificate, check_for_revocation, verify_crl,
}
use pam_pkcs.MapperMgr.{Mgr, Loader, match_user, load_mappers, load_module, load_list, load_static}
use pam_pkcs.Mappers.Mapfile.{MapEnv, mapfile_find, mapfile_match, has_no_file}
use pam_pkcs.Mappers.Names.{
  Block, cn_mapper_module_init, cn_mapper_match_user, match_any, match_entries,
}
use pam_pkcs.Pkcs11.Slots.{Slot, find_slot_by_number_and_label}
use pam_pkcs.Pam.World.{authinfo_unavail, stop, success, Config, Env, World}
use pam_pkcs.Pam.Token.{
  configure, get_login, open_module, find_slot, find_token, open_session, is_spaced_str,
}
use pam_pkcs.Pam.Pin.{card_login}
use pam_pkcs.Pam.Certs.{find_cert, check_signature, finish}
use pam_pkcs.Pam.Authenticate.{pam_sm_authenticate}
use pam_pkcs.Pam.Token.LastLook.{find_token-last_look}
use pam_pkcs.Pam.Sound.{Authentic, pam_sm_authenticate_sound}
use pam_pkcs.CertVfy.Sound.{Accepted, verify_certificate_sound}
use pam_pkcs.CertVfy.Store.{IsTrusted, setup_store-IsTrusted}
use pam_pkcs.Pam.Cleanup.{pam_sm_authenticate_cleanup}

-- Certificates are numbers: the common name of 7 is `ana`.
abbrev common_names : ℕ → Option (List Bytes)
common_names x509 = if x509 == 7 then some (codes "ana" ∷ []) else none

abbrev map_env : MapEnv
map_env = record {
  get_from_uri = λ uri. some (codes "# users\n  ana -> anna\n\nbob -> rob");
  regcomp = λ pattern icase. none;
}

abbrev block : Block
block = record { get_bool = λ key default. default; get_str = λ key default. default }

abbrev loader : Loader ℕ Block
loader = record {
  has_root = true;
  find_blocks = λ name. some (block ∷ []);
  get_module = λ blk. none;
  use_mappers = some (codes "cn" ∷ []);
  static_mapper_list = (codes "cn", cn_mapper_module_init map_env common_names) ∷ [];
  dlopen = λ path. none;
  dlsym = λ handle. none;
}

abbrev policy : CertPolicy
policy = record {
  ca_policy = true;
  crl_policy = crlp_auto;
  signature_policy = true;
  ca_dir = codes "/etc/ca";
  crl_dir = codes "/etc/crl";
}

abbrev config : Config
config = record {
  nullok = false;
  try_first_pass = false;
  use_first_pass = false;
  card_only = false;
  wait_for_card = false;
  screen_savers = none;
  slot_description = none;
  slot_num = pos 0;
  policy = policy;
  quiet = true;
}

abbrev slots : List Slot
slots =
    record { id = 4; token_present = true; label = codes "card"; slot_description = codes "reader" }
    ∷ record { id = 5; token_present = false; label = []; slot_description = codes "spare" }
    ∷ []

abbrev env : Env ℕ Block
env = record {
  configuration = some config;
  display = none;
  login_token_name = none;
  crypto_init = pos 0;
  service = codes "login";
  user_item = (success, some (codes "ana"));
  get_user = (success, some (codes "ana"));
  load_module = pos 0;
  init_module = pos 0;
  slots = slots;
  polls = [];
  open_session = λ slot. pos 0;
  login_required = pos 1;
  protected_path = pos 0;
  authtok = (success, none);
  conv_item = (success, true);
  conv_answer = (success, some (codes "1234"));
  set_authtok = success;
  login = λ pin. pos 0;
  certs = none ∷ some 7 ∷ [];
  verify_certificate = λ x509. pos 1;
  mappers = loader;
  set_user = λ user. success;
  random_value = some (1 ∷ 2 ∷ []);
  sign_value = λ x509 text. some (3 ∷ []);
  verify_signature = λ x509 text signature. pos 0;
  token_label = codes "card";
  issuer = λ x509. none;
  serial = λ x509. none;
  putenv = λ entry. success;
  close_session = pos 0;
}

abbrev world : World ℕ
world = record {
  errors = [];
  module_loaded = false;
  session_open = false;
  pin = none;
  mgr = record { root_mapper_list = []; debug_level = 0; handles = []; deinited = [] };
  pam_user = none;
  environ = [];
}

authenticates : (pam_sm_authenticate env world).0 ≡ some success
unfolding pam_sm_authenticate configure get_login open_module find_token
    find_slot_by_number_and_label open_session card_login find_cert is_spaced_str match_user
    load_mappers load_module cn_mapper_module_init cn_mapper_match_user mapfile_match mapfile_find
    match_any match_entries is_empty_str has_no_file streq load_static load_list check_signature
    finish
authenticates = refl

pam_sm_authenticate_sound_example : Authentic env world.mgr
pam_sm_authenticate_sound_example = pam_sm_authenticate_sound env world authenticates

pam_sm_authenticate_cleanup_example :
    ((pam_sm_authenticate env world).1.module_loaded ≡ false)
    × ((pam_sm_authenticate env world).1.pin ≡ none)
    × (config.quiet ≡ true → (pam_sm_authenticate env world).1.errors ≡ [])
pam_sm_authenticate_cleanup_example =
    pam_sm_authenticate_cleanup env world refl refl refl refl refl authenticates

-- A library that takes the directory of the CA certificates in both formats, and the file of CRLs
-- in the PEM format; keys and CRLs are numbers.
abbrev ossl : Ossl ℕ ℕ ℕ
ossl = record {
  stat = λ path. if streq path (codes "/etc/ca") then some directory else some regular;
  store_new = true;
  add_lookup_hash_dir = true;
  add_lookup_file = true;
  add_dir = λ path t. pos 1;
  load_file = λ path t. elim t [ pem ↦ pos 1 | asn1 ↦ pos 0 ];
  store_ctx_new = true;
  verify_cert = λ store x509. pos 1;
  get_error = λ store x509. other_error;
  issuer_crl = λ store x509. some 1;
  issuer_cert = λ store x509. some 2;
  crl_issuer_cert = λ store crl. some 2;
  get_pubkey = λ x509. some 3;
  crl_verify = λ crl key. pos 1;
  cmp_last_update = λ crl. negsuc 0;
  cmp_next_update = λ crl. pos 1;
  get0_by_cert = λ crl x509. pos 0;
  dist_points = λ x509. none;
  download_crl = λ uri. none;
}

verifies : is_pos (verify_certificate ossl 7 policy) ≡ true
unfolding verify_certificate setup_store is_dir stat_file is_empty_str strstr streq is_file
    check_for_revocation verify_crl
verifies = refl

verify_certificate_sound_example :
    ((policy.ca_policy ≡ false) × (policy.crl_policy ≡ crlp_none)) ⊎ Accepted ossl policy 7
verify_certificate_sound_example = verify_certificate_sound ossl policy 7 verifies

abbrev store : List Source
store =
    loaded (codes "/etc/crl") pem
    ∷ hash_dir (codes "/etc/ca") asn1
    ∷ hash_dir (codes "/etc/ca") pem
    ∷ []

sets_up : setup_store ossl policy ≡ some store
unfolding setup_store is_dir stat_file is_empty_str strstr streq is_file
sets_up = refl

setup_store-IsTrusted_example : All (IsTrusted ossl policy) store
setup_store-IsTrusted_example = setup_store-IsTrusted ossl policy store sets_up

-- The same user, with no token in the only slot.
abbrev no_card : Env ℕ Block
no_card = record env {
  slots =
      record { id = 4; token_present = false; label = []; slot_description = codes "reader" } ∷ [];
}

no_slot : find_slot config no_card.slots none ≡ none
unfolding find_slot find_slot_by_number_and_label
no_slot = refl
