-- ===== src/Tests/Cards.antt =====
-- Runs of pklogin_finder, pkcs11_inspect and pkcs11_listcerts on the token of `Tests`.
use pam_pkcs.Base.{
  ℕ, ◌≡◌, ◌≢◌, ◌↔◌, ◌==◌, ◌&&◌, Bool, if◌then◌else◌, refl, true, false, [], ◌∷◌, ◌++◌, Option, none,
  some, Bytes,
}
use pam_pkcs.Base.Int.{pos, negsuc, is_one}
use pam_pkcs.Base.Cstr.{codes, streq}
use pam_pkcs.Pam.World.{Env}
use pam_pkcs.Pam.Certs.{find_cert}
use pam_pkcs.Tools.Tokens.{
  Reader, Line, Desk, exit, crash, print, release, close, load, open_reader, read_certs, end_with,
  find_login, pklogin_finder, inspect_all, inspect_login, pkcs11_inspect,
}
use pam_pkcs.Tools.Tokens.Listcerts.{
  line_of, print_checks, list_all, listcerts_login, pkcs11_listcerts,
}
use pam_pkcs.Tools.Tokens.Cleanup.{Ends, pklogin_finder_cleanup}
use pam_pkcs.Tools.Tokens.Login.{Sets, pklogin_finder-find_cert}
use pam_pkcs.CertVfy.Signature.{
  Evp, encode_signature, verify_signature, IsWriting, bn_value, verify_signature-bn_value,
  verify_signature-blind,
}
use pam_pkcs.Mappers.Pwent.{PwEnv, pwent_mapper_find_user}
use pam_pkcs.Mappers.Modules.{pwent_mapper_module_init, mail_mapper_module_init}
use pam_pkcs.Mappers.Null.{
  null_settings, null_defaults, null_mapper_find_user, null_mapper_match_user,
  null_mapper_module_init,
}
use pam_pkcs.Mappers.Generic.Digest.{digest_settings, digest_defaults}
use pam_pkcs.Pam.Authenticate.{pam_sm_chauthtok}
use pam_pkcs.Pam.World.{service_err}
use pam_pkcs.Tests.{common_names, map_env, config, env, loader, world}
use pam_pkcs.Mappers.Names.{Block}
use pam_pkcs.MapperMgr.{
  Loader, inited, failed, find_user, load_mappers, load_module, load_list, load_static,
}
use pam_pkcs.Pam.Token.{slot_is_configured, is_spaced_str}
use pam_pkcs.Pkcs11.Slots.{find_slot_by_number}
use pam_pkcs.Strings.{is_empty_str, strndup}

abbrev is_der : Option Bytes → Bool
is_der none = false
is_der (some []) = false
is_der (some (x ∷ [])) = false
is_der (some (x ∷ y ∷ [])) = false
is_der (some (x ∷ r ∷ s ∷ t)) = x == 48 && r == 7 && s == 9

-- A mapper module that finds `ana` for every certificate.
abbrev finds_ana : Loader ℕ Block
finds_ana = record loader {
  static_mapper_list =
      (
        codes "cn",
        λ blk name level.
            inited
              (record {
                dbg_level = 0;
                entries = none;
                finder = some (λ x509. (some (codes "ana"), true));
                matcher = none;
                deinit = true;
              })
              level,
      )
      ∷ [];
}

abbrev card : Env ℕ Block
card = record env { mappers = finds_ana }

abbrev reader : Reader ℕ Block
reader = record {
  env = card;
  pass_login = pos 0;
  certificate_list = some (none ∷ some 7 ∷ []);
  subject = λ x509. some (codes "CN=ana" ∷ []);
  key_alg = λ x509. some [];
  get_private_key = λ x509. negsuc 0;
}

abbrev desk : Desk ℕ
desk = record { module_loaded = false; session_open = false; mgr = world.mgr; output = [] }

-- The card is listed without its null pointer, with an issuer.
abbrev listed : Reader ℕ Block
listed = record reader {
  certificate_list = some (some 7 ∷ []);
  env = record card { issuer = λ x509. some (codes "CN=ca" ∷ []) };
}

blank_name : is_spaced_str (some []) ≡ true
unfolding is_spaced_str is_empty_str
blank_name = refl

logs_in : (pklogin_finder reader desk).0 ≡ exit 0
unfolding pklogin_finder open_reader slot_is_configured find_slot_by_number read_certs find_login
    find_user load load_mappers load_module load_list load_static streq end_with is_empty_str
logs_in = refl

inspects : (pkcs11_inspect reader desk).0 ≡ exit 0
unfolding pkcs11_inspect open_reader slot_is_configured find_slot_by_number inspect_login read_certs
    inspect_all end_with
inspects = refl

refused : (pkcs11_inspect (record reader { pass_login = negsuc 0 }) desk).1.module_loaded ≡ true
unfolding pkcs11_inspect open_reader slot_is_configured find_slot_by_number inspect_login read_certs
    inspect_all end_with
refused = refl

lists :
    (pkcs11_listcerts listed desk).1.output
    ≡ Line.found 1
      ∷ Line.certificate (some (codes "CN=ana")) (some (codes "CN=ca")) none
      ∷ Line.no_private_key
      ∷ []
unfolding pkcs11_listcerts open_reader slot_is_configured find_slot_by_number listcerts_login
    read_certs list_all end_with print_checks print release close line_of
lists = refl

lists_null : (pkcs11_listcerts reader desk).0 ≡ crash
unfolding pkcs11_listcerts open_reader slot_is_configured find_slot_by_number listcerts_login
    read_certs list_all end_with print_checks print release close line_of
lists_null = refl

pklogin_finder_cleanup_example :
    Ends none (pklogin_finder reader desk) × Ends (some 2) (pkcs11_inspect reader desk)
pklogin_finder_cleanup_example = pklogin_finder_cleanup reader desk refl

-- A blank user name: the login that is printed is set.
pklogin_finder-find_cert_example :
    (login : Bytes) × ((pklogin_finder reader desk).1.output ≡ desk.output ++ Line.user login ∷ [])
    × Sets login (find_cert card config (some []) (pos 0) world)
pklogin_finder-find_cert_example =
    pklogin_finder-find_cert reader config (some []) blank_name (λ login. refl) refl (pos 0) desk
      (pklogin_finder reader desk).1 world refl refl
      (λ i. (logs_in i, (pklogin_finder reader desk).1))

abbrev pair_der : Option ℕ → Option ℕ → Option Bytes
pair_der none s = none
pair_der (some r) none = none
pair_der (some r) (some s) = some (48 ∷ r ∷ s ∷ [])

pair_der-some :
    (o p : Option ℕ) (r s : ℕ) → o ≡ some r → p ≡ some s → pair_der o p ≡ some (48 ∷ r ∷ s ∷ [])
pair_der-some o p r s e f = rw (e, f) refl

-- A signature is its two numbers, and the encoding has them after 48. This OpenSSL accepts the signature
-- 7, 9 of every text. The key 1 is an EC key.
abbrev evp : Evp ℕ ℕ (Option ℕ × Option ℕ)
evp = record {
  get_pubkey = λ x509. some x509;
  is_ec = λ key. key == 1;
  sig_new = (some 0, some 0);
  bin2bn_r = λ b sig. (some (bn_value b), sig.1);
  bin2bn_s = λ b sig. (sig.0, some (bn_value b));
  i2d = λ sig. pair_der sig.0 sig.1;
  verify_final = λ text signature key. if is_der signature then pos 1 else pos 0;
}

evp-IsWriting : IsWriting evp (λ sig. sig.0) (λ sig. sig.1) (λ r s. 48 ∷ r ∷ s ∷ [])
evp-IsWriting = record {
  r_written = λ b sig. refl;
  r_kept = λ b sig. refl;
  s_written = λ b sig. refl;
  encoded = λ sig r s e f. pair_der-some sig.0 sig.1 r s e f;
}

-- As `evp`, with numbers that are null pointers.
abbrev evp_null : Evp ℕ ℕ (Option ℕ × Option ℕ)
evp_null = record evp { sig_new = (none, none); bin2bn_r = λ b sig. sig; bin2bn_s = λ b sig. sig }

-- The two numbers 7 and 9, in two bytes each.
verify_signature-bn_value_example :
    ((verify_signature evp 1 (5 ∷ []) (0 ∷ 7 ∷ 0 ∷ 9 ∷ [])).0 ≡ pos 0)
    ↔ (is_one (evp.verify_final (5 ∷ []) (some (48 ∷ 7 ∷ 9 ∷ [])) 1) ≡ true)
verify_signature-bn_value_example =
    verify_signature-bn_value evp (λ sig. sig.0) (λ sig. sig.1) (λ r s. 48 ∷ r ∷ s ∷ [])
      evp-IsWriting 1 1 (5 ∷ []) (0 ∷ 7 ∷ []) (0 ∷ 9 ∷ []) refl refl refl

verify_signature-blind_example :
    verify_signature evp_null 1 (5 ∷ []) (7 ∷ 9 ∷ [])
    ≡ verify_signature evp_null 1 (5 ∷ []) (8 ∷ 8 ∷ 8 ∷ [])
verify_signature-blind_example =
    verify_signature-blind evp_null 1 1 (5 ∷ []) (7 ∷ 9 ∷ []) (8 ∷ 8 ∷ 8 ∷ []) (λ b. refl)
      (λ b. refl) refl refl

verified : (verify_signature evp 1 (5 ∷ []) (7 ∷ 9 ∷ [])).0 ≡ pos 0
unfolding verify_signature encode_signature
verified = refl

-- A key that is not an EC key: the signature is taken as it is.
not_verified : verify_signature evp 2 (5 ∷ []) (7 ∷ 9 ∷ []) ≡ (negsuc 0, some (7 ∷ 9 ∷ []))
unfolding verify_signature
not_verified = refl

-- The file gives a user and a match.
abbrev own_block : Block
own_block = record { get_bool = λ key default. true; get_str = λ key default. codes "eve" }

own_user :
    (null_mapper_find_user (null_settings (some own_block) null_defaults)
      ≡ (some (codes "eve"), true))
    × (null_mapper_match_user (null_settings (some own_block) null_defaults) (codes "ana") ≡ pos 0)
unfolding null_mapper_find_user null_settings null_mapper_match_user streq
own_user = (refl, refl)

starts_null : null_mapper_module_init {X509 = ℕ} none (codes "null") 3 ≢ failed 0
unfolding null_mapper_module_init
starts_null e = cc

takes_sha1 :
    (digest_settings (λ name. false) (some own_block) digest_defaults).algorithm
    ≡ some (codes "sha1")
unfolding digest_settings
takes_sha1 = refl

tells : pam_sm_chauthtok (record card { login_token_name = some [] }) true ≡ (service_err, true)
unfolding pam_sm_chauthtok
tells = refl

cut_short : strndup (1 ∷ 2 ∷ 0 ∷ []) 2 ≡ none
unfolding strndup
cut_short = refl

-- A database of one entry.
abbrev people : PwEnv
people = record {
  entries = [];
  getpwnam = λ name.
      if streq name (codes "ana")
      then some (record { pw_name = codes "ana"; pw_gecos = [] })
      else none;
}

abbrev by_password : Loader ℕ Block
by_password = record loader {
  static_mapper_list =
      (codes "cn", pwent_mapper_module_init common_names people)
      ∷ (codes "mail", mail_mapper_module_init common_names map_env (codes "host"))
      ∷ [];
}

found_by_password : (find_user (load_mappers by_password world.mgr) (some 7)).0 ≡ some (codes "ana")
unfolding find_user load_mappers load_module load_list load_static streq pwent_mapper_module_init
    pwent_mapper_find_user
found_by_password = refl
