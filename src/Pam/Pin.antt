-- ===== src/Pam/Pin.antt =====
-- pam_pkcs11/pam_pkcs11.c: `pam_get_pwd` and the login to the token.
pub mod Login
pub mod Erased
use pam_pkcs.Base.{
  zero, suc, Bool, true, false, ◌&&◌, ◌||◌, not, Option, none, some, Bytes, if◌then◌else◌, ◌==◌,
  length,
}
use pam_pkcs.Base.Int.{ℤ, pos, negsuc, is_zero}
use pam_pkcs.MapperMgr.{unload_mappers}
use pam_pkcs.Pam.World.{
  PamCode, success, cred_insufficient, auth_err, is_success, Config, Env, World, go, stop, Res,
  tell, release_module, pam_fail,
}

-- `rv == -1`
abbrev pub is_minus_one : ℤ → Bool
is_minus_one (pos _) = false
is_minus_one (negsuc zero) = true
is_minus_one (negsuc (suc _)) = false

module _ {X509 Block : Type 0} (env : Env X509 Block) where
  -- The part of `pam_get_pwd` that asks the user: what it returns, and the PIN it has stored.
  ask_new : Bool → Option Bytes → PamCode × Option Bytes
  ask_new store none = (cred_insufficient, none)
  ask_new store (some p) =
      if store && not (is_success env.set_authtok)
      then (env.set_authtok, some p)
      else (success, some p)

  ask_user : Bool → PamCode × Option Bytes
  unfolding ask_new
  ask_user store =
      if not (is_success env.conv_item.0)
      then (env.conv_item.0, none)
      else if not env.conv_item.1
      then (cred_insufficient, none)
      else if not (is_success env.conv_answer.0)
      then (env.conv_answer.0, none)
      else ask_new store env.conv_answer.1

  after_stored : Bool → Bool → Option Bytes → PamCode × Option Bytes
  unfolding ask_user
  after_stored text store (some p) = (success, some p)
  after_stored text store none = if text then ask_user store else (cred_insufficient, none)

  -- `text` tells whether a prompt is given, `old` whether the stored password is tried first, and
  -- `store` whether the answer is stored.
  unfoldable pub pam_get_pwd : Bool → Bool → Bool → PamCode × Option Bytes
  unfolding after_stored
  pam_get_pwd text old store =
      if old
      then (if not (is_success env.authtok.0)
          then (env.authtok.0, none)
          else after_stored text store env.authtok.1)
      else after_stored text store none

  -- The three ways in which the password is asked for.
  unfoldable pub get_password : Config → PamCode × Option Bytes
  unfolding pam_get_pwd
  get_password cfg =
      if cfg.use_first_pass
      then pam_get_pwd false true false
      else if cfg.try_first_pass
      then pam_get_pwd true true true
      else pam_get_pwd true false true

  -- The exit at `auth_failed_nopw`. A session that cannot be closed stays open.
  unfoldable pub close_session : World X509 → World X509
  close_session w = if is_zero env.close_session then record w { session_open = false } else w

  unfoldable pub auth_failed_nopw : {A : Type 0} → Config → World X509 → Res X509 A
  unfolding close_session
  auth_failed_nopw cfg w = (
    stop (pam_fail cfg),
    release_module (close_session (record w { mgr = unload_mappers w.mgr })),
  )

  -- `pkcs11_login`, and the erasing of the PIN after it.
  unfoldable pub token_login : Config → Option Bytes → World X509 → Res X509 ℤ
  unfolding auth_failed_nopw
  token_login cfg password w =
      let rv = env.login password in
      let wiped = record w { pin = none } in
      if is_zero rv then (go rv, wiped) else auth_failed_nopw cfg (tell cfg 2320 wiped)

  check_password : Config → Option Bytes → World X509 → Res X509 ℤ
  unfolding token_login
  check_password cfg none w = token_login cfg none w
  check_password cfg (some p) w =
      if not cfg.nullok && length p == 0
      then (stop auth_err, tell cfg 2318 (record (release_module w) { pin = none }))
      else token_login cfg (some p) w

  with_password : Config → PamCode × Option Bytes → World X509 → Res X509 ℤ
  unfolding check_password
  with_password cfg (rv, password) w =
      let asked = record w { pin = password } in
      if not (is_success rv)
      then (stop (pam_fail cfg), release_module (tell cfg 2316 asked))
      else check_password cfg password asked

  -- The login that the token may require: the result is the value that `rv` has after it.
  unfoldable pub card_login : Config → World X509 → Res X509 ℤ
  unfolding with_password get_password
  card_login cfg w =
      let required = env.login_required in
      let path = env.protected_path in
      if is_minus_one required
      then (stop (pam_fail cfg), release_module (tell cfg 2314 w))
      else if is_zero required
      then (go required, w)
      else if is_minus_one path || is_zero path
      then with_password cfg (get_password cfg) w
      else token_login cfg none w
