-- ===== src/Pam/Certs.antt =====
-- pam_pkcs11/pam_pkcs11.c: the second half of `pam_sm_authenticate`, from the certificates of the
-- token to the result.
pub mod Choice
use pam_pkcs.Base.{
  ℕ, zero, suc, ◌-◌, false, not, List, [], ◌∷◌, ◌++◌, Option, none, some, Bytes, if◌then◌else◌,
  length, take,
}
use pam_pkcs.Base.Int.{ℤ, pos, negsuc, is_zero, is_neg, is_one}
use pam_pkcs.Base.Cstr.{codes}
use pam_pkcs.MapperMgr.{load_mappers, unload_mappers, find_user, match_user}
use pam_pkcs.Pam.World.{
  PamCode, success, auth_err, is_success, Config, Env, World, go, stop, Res, tell, release_module,
  pam_fail,
}
use pam_pkcs.Pam.Pin.{auth_failed_nopw, close_session}
use pam_pkcs.Pam.Token.{is_spaced_str}

-- The message for a certificate that is refused with a negative result.
abbrev verify_message : ℤ → ℕ
verify_message (pos _) = 2330
verify_message (negsuc zero) = 2330
verify_message (negsuc (suc zero)) = 2324
verify_message (negsuc (suc (suc zero))) = 2326
verify_message (negsuc (suc (suc (suc zero)))) = 2328
verify_message (negsuc (suc (suc (suc (suc _))))) = 2330

module _ {X509 Block : Type 0} (env : Env X509 Block) where
  -- The certificate was verified, and `find_user` gave this login for a blank user name.
  unfoldable pub use_login :
      Config → X509 → Option Bytes → World X509 → (World X509 → Res X509 X509) → Res X509 X509
  use_login cfg x509 none w next = next w
  use_login cfg x509 (some login) w next =
      if is_success (env.set_user login)
      then (go x509, record w { pam_user = some login })
      else auth_failed_nopw env cfg (tell cfg 2332 w)

  -- The certificate was verified, and `match_user` gave this result for the user name.
  use_match : Config → X509 → ℤ → World X509 → (World X509 → Res X509 X509) → Res X509 X509
  use_match cfg x509 rv w next =
      if is_neg rv
      then auth_failed_nopw env cfg (tell cfg 2334 w)
      else if is_zero rv
      then next w
      else (go x509, w)

  -- One round of the loop; `next` is the rest of it. A null certificate is passed over.
  unfoldable pub try_cert :
      Config → Option Bytes → X509 → World X509 → (World X509 → Res X509 X509) → Res X509 X509
  unfolding use_login use_match
  try_cert cfg user x509 w next =
      let rv = env.verify_certificate x509 in
      if is_neg rv
      then next (tell cfg (verify_message rv) w)
      else if not (is_one rv)
      then next w
      else if is_spaced_str user
      then (let (login, mgr) = find_user w.mgr (some x509) in
          use_login cfg x509 login (record w { mgr = mgr }) next)
      else (let (res, mgr) = match_user w.mgr (some x509) user in
          use_match cfg x509 res (record w { mgr = mgr }) next)

  -- The loop over the certificates, with the failure where none is chosen.
  unfoldable pub choose_cert :
      Config → Option Bytes → List (Option X509) → World X509 → Res X509 X509
  unfolding try_cert
  choose_cert cfg user [] w = auth_failed_nopw env cfg (tell cfg 2336 w)
  choose_cert cfg user (none ∷ certs) w = choose_cert cfg user certs w
  choose_cert cfg user (some x509 ∷ certs) w = try_cert cfg user x509 w (choose_cert cfg user certs)

  -- `rv` still is the value from before the call of `get_certificate_list`.
  unfoldable pub find_cert : Config → Option Bytes → ℤ → World X509 → Res X509 X509
  unfolding choose_cert
  find_cert cfg user rv w =
      if is_neg rv
      then auth_failed_nopw env cfg (tell cfg 2322 w)
      else choose_cert cfg user env.certs (record w { mgr = load_mappers env.mappers w.mgr })

  verify_signed : Config → X509 → Bytes → Option Bytes → World X509 → Res X509 (Unit {0})
  verify_signed cfg x509 random none w = auth_failed_nopw env cfg (tell cfg 2340 w)
  verify_signed cfg x509 random (some signature) w =
      if is_zero (env.verify_signature x509 random signature)
      then (go tt, w)
      else (stop auth_err, tell cfg 2342 (release_module (close_session env w)))

  sign_random : Config → X509 → Option Bytes → World X509 → Res X509 (Unit {0})
  unfolding verify_signed
  sign_random cfg x509 none w = auth_failed_nopw env cfg (tell cfg 2338 w)
  sign_random cfg x509 (some random) w =
      verify_signed cfg x509 random (env.sign_value x509 random) w

  -- The card must sign a random value, if the policy asks for it.
  unfoldable pub check_signature : Config → X509 → World X509 → Res X509 (Unit {0})
  unfolding sign_random
  check_signature cfg x509 w =
      if cfg.policy.signature_policy then sign_random cfg x509 env.random_value w else (go tt, w)

  -- `name=value`, cut to the 254 characters that `snprintf` writes, and put if PAM accepts it.
  unfoldable pub put_env : Bytes → Bytes → World X509 → World X509
  put_env name value w =
      let entry = name ++ take (254 - length name) value in
      if is_success (env.putenv entry) then record w { environ = w.environ ++ entry ∷ [] } else w

  unfoldable pub put_first : Bytes → Option (List Bytes) → World X509 → World X509
  unfolding put_env
  put_first name none w = w
  put_first name (some []) w = w
  put_first name (some (v ∷ vs)) w = put_env name v w

  unfoldable pub put_environment : X509 → World X509 → World X509
  unfolding put_first
  put_environment x509 w = put_first (codes "PKCS11_LOGIN_CERT_SERIAL=") (env.serial x509) (
      put_first (codes "PKCS11_LOGIN_CERT_ISSUER=") (env.issuer x509)
        (put_env (codes "PKCS11_LOGIN_TOKEN_NAME=") env.token_label w))

  -- The mappers are unloaded, the session closed and the module released.
  unfoldable pub finish : Config → World X509 → Res X509 PamCode
  finish cfg w =
      let unloaded = record w { mgr = unload_mappers w.mgr } in
      if is_zero env.close_session
      then (go success, release_module (record unloaded { session_open = false }))
      else (stop (pam_fail cfg), tell cfg 2344 (release_module unloaded))
