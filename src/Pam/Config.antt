-- ===== src/Pam/Config.antt =====
-- pam_pkcs11/pam_config.c: the configuration from its defaults, the file and the arguments. The
-- library scconf is the parameter `Scconf`: whether the file is read, and the blocks with the values
-- of their items. A null block has no items.
pub mod Items
pub mod Policy
use pam_pkcs.Base.{
  ℕ, zero, suc, Bool, true, false, not, ◌&&◌, List, [], ◌∷◌, ◌++◌, Option, none, some, Bytes,
  if◌then◌else◌, drop, is_some,
}
use pam_pkcs.Base.Int.{ℤ, pos, negsuc}
use pam_pkcs.Base.Cstr.{codes, streq, strchr}
use pam_pkcs.Uri.{contains}
use pam_pkcs.CertVfy.{CrlPolicy, crlp_none, crlp_online, crlp_offline, crlp_auto, CertPolicy}

-- The values of the items of a block; an item without a value is none, or an empty list.
pub record Block : Type 0 where
  pub get_bool : Bytes → Option Bool
  pub get_int : Bytes → Option ℤ
  pub get_str : Bytes → Option Bytes
  pub find_list : Bytes → List Bytes

-- The file of a name: whether it is read and parsed, its block "pam_pkcs11", and the block of a
-- PKCS #11 module. `sscanf` gives the number that is read with "slot_num=%d".
pub record Scconf : Type 0 where
  pub new : Bytes → Bool
  pub is_parsed : Bytes → Bool
  pub root : Bytes → Option Block
  pub modules : Bytes → Bytes → Option Block
  pub sscanf : Bytes → Option ℤ

-- `struct configuration_st`, and the debug level. `policy` has the fields that the build with OpenSSL
-- reads; those of the build with NSS are `nss_dir` and `ocsp_on`.
pub record Configuration : Type 0 where
  pub config_file : Bytes
  pub debug : Bool
  pub nullok : Bool
  pub try_first_pass : Bool
  pub use_first_pass : Bool
  pub use_authok : Bool
  pub card_only : Bool
  pub wait_for_card : Bool
  pub pkcs11_module : Bytes
  pub pkcs11_modulepath : Bytes
  pub screen_savers : Option (List Bytes)
  pub slot_description : Option Bytes
  pub slot_num : ℤ
  pub support_threads : Bool
  pub policy : CertPolicy
  pub nss_dir : Bytes
  pub ocsp_on : Bool
  pub token_type : Bytes
  pub quiet : Bool
  pub err_display_time : ℤ
  pub debug_level : ℤ

-- A value with its default.
abbrev get {ℓ} : {A : Type ℓ} → Option A → A → A
get none default_value = default_value
get (some value) default_value = value

abbrev set_debug_level : ℤ → Configuration → Configuration
set_debug_level level c = record c { debug_level = level }

abbrev is_minus_one : ℤ → Bool
is_minus_one (negsuc zero) = true
is_minus_one (negsuc (suc n)) = false
is_minus_one (pos n) = false

abbrev no_checks : CertPolicy → CertPolicy
no_checks p = record p { ca_policy = false; crl_policy = crlp_none; signature_policy = false }

-- The options of the block "pam_pkcs11" that are read first, and those that change the debug level.
set_quiet : Block → Configuration → Configuration
set_quiet root c =
    let c1 = record c {
      err_display_time = get (root.get_int (codes "err_display_time")) c.err_display_time;
      nullok = get (root.get_bool (codes "nullok")) c.nullok;
      quiet = get (root.get_bool (codes "quiet")) c.quiet;
    } in
    if c1.quiet then set_debug_level (negsuc 1) c1 else c1

set_debug : Block → Configuration → Configuration
set_debug root c =
    let c1 = record c { debug = get (root.get_bool (codes "debug")) c.debug } in
    if c1.debug then set_debug_level (pos 1) c1 else c1

set_flags : Block → Configuration → Configuration
unfolding set_quiet set_debug
set_flags root c =
    let c1 = set_debug root (set_quiet root c) in
    record c1 {
      use_first_pass = get (root.get_bool (codes "use_first_pass")) c1.use_first_pass;
      try_first_pass = get (root.get_bool (codes "try_first_pass")) c1.try_first_pass;
      use_authok = get (root.get_bool (codes "use_authok")) c1.use_authok;
      card_only = get (root.get_bool (codes "card_only")) c1.card_only;
      wait_for_card = get (root.get_bool (codes "wait_for_card")) c1.wait_for_card;
      pkcs11_module = get (root.get_str (codes "use_pkcs11_module")) c1.pkcs11_module;
    }

-- One item of the list "cert_policy" other than "none".
unfoldable pub set_policy : Bytes → Configuration → Configuration
set_policy item c =
    if streq item (codes "crl_auto")
    then record c { policy = record c.policy { crl_policy = crlp_auto } }
    else if streq item (codes "crl_online")
    then record c { policy = record c.policy { crl_policy = crlp_online } }
    else if streq item (codes "crl_offline")
    then record c { policy = record c.policy { crl_policy = crlp_offline } }
    else if streq item (codes "ocsp_on")
    then record c { ocsp_on = true }
    else if streq item (codes "ca")
    then record c { policy = record c.policy { ca_policy = true } }
    else if streq item (codes "signature")
    then record c { policy = record c.policy { signature_policy = true } }
    else c

-- The loop over the list, which "none" ends.
unfoldable pub set_policies : List Bytes → Configuration → Configuration
unfolding set_policy
set_policies [] c = c
set_policies (item ∷ items) c =
    if streq item (codes "none")
    then record c { policy = no_checks c.policy; ocsp_on = false }
    else set_policies items (set_policy item c)

-- The paths and the slot in the block of the PKCS #11 module.
set_paths : Block → Configuration → Configuration
set_paths block c = record c {
  pkcs11_modulepath = get (block.get_str (codes "module")) c.pkcs11_modulepath;
  policy = record c.policy {
    ca_dir = get (block.get_str (codes "ca_dir")) c.policy.ca_dir;
    crl_dir = get (block.get_str (codes "crl_dir")) c.policy.crl_dir;
  };
  nss_dir = get (block.get_str (codes "nss_dir")) c.nss_dir;
  slot_description = elim (block.get_str (codes "slot_description")) [
    | none ↦ c.slot_description
    | some s ↦ some s
  ];
  slot_num = get (block.get_int (codes "slot_num")) c.slot_num;
}

-- A slot is given by its description and by its number, or by neither.
unfoldable pub is_slot_unclear : Configuration → Bool
is_slot_unclear c =
    if is_some c.slot_description then not (is_minus_one c.slot_num) else is_minus_one c.slot_num

set_module : Block → Configuration → Configuration
unfolding set_policies
set_module block c =
    let c1 = set_policies (block.find_list (codes "cert_policy")) (record c {
      support_threads = get (block.get_bool (codes "support_threads")) c.support_threads;
    }) in
    record c1 { token_type = get (block.get_str (codes "token_type")) c1.token_type }

set_screen_savers : Block → Configuration → Configuration
set_screen_savers root c = elim (root.find_list (codes "screen_savers")) [
  | [] ↦ c
  | s ∷ l ↦ record c { screen_savers = some (s ∷ l) }
]

set_blocks : Option Block → Block → Configuration → Configuration
unfolding set_paths is_slot_unclear set_module set_screen_savers
set_blocks none root c = set_screen_savers root c
set_blocks (some block) root c =
    let c1 = set_paths block c in
    if is_slot_unclear c1 then c1 else set_screen_savers root (set_module block c1)

-- What is set by a file that is parsed as far as it goes.
unfoldable pub parse_config_file : Scconf → Configuration → Configuration
unfolding set_flags set_blocks
parse_config_file conf c =
    if not (conf.new c.config_file)
    then c
    else if not (conf.is_parsed c.config_file)
    then c
    else elim (conf.root c.config_file) [
      | none ↦ c
      | some root ↦
          let c1 = set_flags root c in
          set_blocks (conf.modules c1.config_file c1.pkcs11_module) root c1
    ]

-- What each name in a `cert_policy=` argument changes, in the order in which they are looked for.
abbrev pub policy_changes : List (Bytes × (Configuration → Configuration))
policy_changes =
    (codes "none", λ c. record c { policy = no_checks c.policy; ocsp_on = false })
    ∷ (codes "crl_online", λ c. record c { policy = record c.policy { crl_policy = crlp_online } })
    ∷ (
      codes "crl_offline",
      λ c. record c { policy = record c.policy { crl_policy = crlp_offline } },
    )
    ∷ (codes "crl_auto", λ c. record c { policy = record c.policy { crl_policy = crlp_auto } })
    ∷ (codes "ocsp_on", λ c. record c { ocsp_on = true })
    ∷ (codes "ca", λ c. record c { policy = record c.policy { ca_policy = true } })
    ∷ (codes "signature", λ c. record c { policy = record c.policy { signature_policy = true } })
    ∷ []

unfoldable pub apply_changes :
    Bytes → List (Bytes × (Configuration → Configuration)) → Configuration → Configuration
apply_changes arg [] c = c
apply_changes arg ((name, change) ∷ rest) c =
    apply_changes arg rest (if contains arg name then change c else c)

unfoldable pub set_argument_policy : Bytes → Configuration → Configuration
unfolding apply_changes
set_argument_policy arg c = apply_changes arg policy_changes c

-- The arguments that name a value; a text that is not at the start of the argument is skipped by its
-- length all the same.
set_value : Scconf → Bytes → Configuration → Configuration
unfolding set_argument_policy
set_value conf arg c =
    if contains arg (codes "pkcs11_module=")
    then record c { pkcs11_module = drop 14 arg }
    else if contains arg (codes "slot_description=")
    then record c { slot_description = some (drop 17 arg) }
    else if contains arg (codes "slot_num=")
    then record c { slot_num = get (conf.sscanf arg) c.slot_num }
    else if contains arg (codes "ca_dir=")
    then record c { policy = record c.policy { ca_dir = drop 7 arg } }
    else if contains arg (codes "crl_dir=")
    then record c { policy = record c.policy { crl_dir = drop 8 arg } }
    else if contains arg (codes "nss_dir=")
    then record c { nss_dir = drop 8 arg }
    else if contains arg (codes "cert_policy=")
    then set_argument_policy arg c
    else if contains arg (codes "token_type=")
    then record c { token_type = drop 11 arg }
    else c

unfoldable pub set_argument : Scconf → Bytes → Configuration → Configuration
unfolding set_value
set_argument conf arg c =
    if streq arg (codes "nullok")
    then record c { nullok = true }
    else if streq arg (codes "try_first_pass")
    then record c { try_first_pass = true }
    else if streq arg (codes "use_first_pass")
    then record c { use_first_pass = true }
    else if streq arg (codes "wait_for_card")
    then record c { wait_for_card = true }
    else if streq arg (codes "dont_wait_for_card")
    then record c { wait_for_card = false }
    else if streq arg (codes "debug")
    then set_debug_level (pos 1) (record c { debug = true })
    else if streq arg (codes "nodebug")
    then set_debug_level (if c.quiet then negsuc 1 else pos 0) (record c { debug = false })
    else if streq arg (codes "quiet")
    then set_debug_level (negsuc 1) (record c { quiet = true })
    else set_value conf arg c

unfoldable pub set_arguments : Scconf → List Bytes → Configuration → Configuration
unfolding set_argument
set_arguments conf [] c = c
set_arguments conf (arg ∷ args) c = set_arguments conf args (set_argument conf arg c)

-- The file of the first argument that names one, what follows its first '='.
unfoldable pub set_config_file : List Bytes → Configuration → Configuration
set_config_file [] c = c
set_config_file (arg ∷ args) c =
    let rest = set_config_file args c in
    if contains arg (codes "config_file=")
    then elim (strchr arg b'=') [ none ↦ c | some (name, file) ↦ record c { config_file = file } ]
    else rest

unfoldable pub pk_configure : Scconf → List Bytes → Configuration → Configuration
unfolding set_config_file parse_config_file set_arguments
pk_configure conf argv c = set_arguments conf argv (parse_config_file conf (set_config_file argv c))

-- The static values of the configuration.
abbrev pub configuration : Bytes → Configuration
configuration confdir = record {
  config_file = confdir ++ codes "/pam_pkcs11.conf";
  debug = false;
  nullok = false;
  try_first_pass = false;
  use_first_pass = false;
  use_authok = false;
  card_only = false;
  wait_for_card = false;
  pkcs11_module = codes "default";
  pkcs11_modulepath = confdir ++ codes "/pkcs11_module.so";
  screen_savers = none;
  slot_description = none;
  slot_num = negsuc 0;
  support_threads = false;
  policy = record {
    ca_policy = false;
    crl_policy = crlp_none;
    signature_policy = false;
    ca_dir = confdir ++ codes "/cacerts";
    crl_dir = confdir ++ codes "/crls";
  };
  nss_dir = confdir ++ codes "/nssdb";
  ocsp_on = false;
  token_type = codes "Smart card";
  quiet = false;
  err_display_time = pos 0;
  debug_level = pos 0;
}
