-- ===== src/Pam/Cleanup.antt =====
-- What `pam_sm_authenticate` of pam_pkcs11/pam_pkcs11.c leaves behind, however it ends.
use pam_pkcs.Base.{
  ℕ, ◌≡◌, ◌⊎◌, inl, inr, refl, Bool, true, false, List, [], ◌∷◌, Option, none, some, arith, Bytes,
  Bool-cases,
}
use pam_pkcs.Base.Int.{ℤ, is_neg}
use pam_pkcs.Base.Cstr.{codes}
use pam_pkcs.Pam.World.{
  PamCode, authinfo_unavail, is_success, Config, Env, World, go, stop, blocked, Res, ◌>>=◌, tell,
  release_module,
}
use pam_pkcs.Pam.Pin.{auth_failed_nopw, card_login}
use pam_pkcs.Pam.Pin.Erased.{holds, after, card_login-after}
use pam_pkcs.Pam.Token.{configure, get_login, open_module, find_token, open_session}
use pam_pkcs.Pam.Certs.{find_cert, check_signature, put_env, put_first, put_environment, finish}
use pam_pkcs.Pam.Certs.Choice.{choose_cert_rule}
use pam_pkcs.Pam.Authenticate.{authenticate, authenticate_from, code_of, pam_sm_authenticate}

module _ {X509 : Type 0} {A B : Type 0} (cfg : Config) where
  after->>= :
      (b b' : Bool) (m : Res X509 A) (f : A → World X509 → Res X509 B)
      → after cfg b m ≡ true
      → ((a : A) (w : World X509) → holds cfg b w ≡ true → after cfg b' (f a w) ≡ true)
      → after cfg b' (m >>= f) ≡ true
  after->>= b b' (go a, w) f h k = k a w h
  after->>= b b' (stop c, w) f h k = h
  after->>= b b' (blocked, w) f h k = refl

module _ {X509 Block : Type 0} (env : Env X509 Block) (cfg : Config)
    (stores : is_success env.set_authtok ≡ true) where
  get_login-after :
      (w : World X509) → holds cfg false w ≡ true → after cfg false (get_login env cfg w) ≡ true
  unfolding get_login
  get_login-after w h = ground arith

  open_module-after :
      (w : World X509) → holds cfg false w ≡ true → after cfg true (open_module env cfg w) ≡ true
  unfolding open_module tell release_module
  open_module-after w h = ground arith

  find_token-after :
      (user : Option Bytes) (w : World X509)
      → holds cfg true w ≡ true
      → after cfg true (find_token env cfg user w) ≡ true
  unfolding find_token tell release_module
  find_token-after user w h = ground arith

  open_session-after :
      (i : ℕ) (w : World X509)
      → holds cfg true w ≡ true
      → after cfg true (open_session env cfg i w) ≡ true
  unfolding open_session tell release_module
  open_session-after i w h = ground arith

  auth_failed-after :
      (A : Type 0) (n : ℕ) (w : World X509)
      → holds cfg true w ≡ true
      → after cfg true (auth_failed_nopw env {A = A} cfg (tell cfg n w)) ≡ true
  unfolding auth_failed_nopw tell release_module
  auth_failed-after A n w h = ground arith

  check_signature-after :
      (x : X509) (w : World X509)
      → holds cfg true w ≡ true
      → after cfg true (check_signature env cfg x w) ≡ true
  unfolding check_signature auth_failed_nopw tell release_module
  check_signature-after x w h = ground arith

  put_env-holds :
      (name value : Bytes) (w : World X509)
      → holds cfg true w ≡ true
      → holds cfg true (put_env env name value w) ≡ true
  unfolding put_env
  put_env-holds name value w h = ground arith

  put_first-holds :
      (name : Bytes) (o : Option (List Bytes)) (w : World X509)
      → holds cfg true w ≡ true
      → holds cfg true (put_first env name o w) ≡ true
  put_first-holds name none w h = (unfold put_first in h)
  put_first-holds name (some []) w h = (unfold put_first in h)
  put_first-holds name (some (v ∷ vs)) w h = (unfold put_first in put_env-holds name v w h)

  put_environment-holds :
      (x : X509) (w : World X509)
      → holds cfg true w ≡ true
      → holds cfg true (put_environment env x w) ≡ true
  unfolding put_environment
  put_environment-holds x w h =
      let token = codes "PKCS11_LOGIN_TOKEN_NAME=" in
      let issuer = codes "PKCS11_LOGIN_CERT_ISSUER=" in
      let serial = codes "PKCS11_LOGIN_CERT_SERIAL=" in
      let w1 = put_env env token env.token_label w in
      let w2 = put_first env issuer (env.issuer x) w1 in
      put_first-holds serial (env.serial x) w2
        (put_first-holds issuer (env.issuer x) w1 (put_env-holds token env.token_label w h))

  finish-after :
      (w : World X509) → holds cfg true w ≡ true → after cfg false (finish env cfg w) ≡ true
  unfolding finish tell release_module
  finish-after w h = ground arith

  tell-holds :
      (n : ℕ) (w : World X509) → holds cfg true w ≡ true → holds cfg true (tell cfg n w) ≡ true
  unfolding tell
  tell-holds n w h = ground arith

  find_cert-after :
      (user : Option Bytes) (rv : ℤ) (w : World X509)
      → holds cfg true w ≡ true
      → after cfg true (find_cert env cfg user rv w) ≡ true
  unfolding find_cert
  find_cert-after user rv w h = elim (Bool-cases (is_neg rv)) [
    | inl e ↦ rw e (auth_failed-after X509 2322 w h)
    | inr e ↦ rw e (
        choose_cert_rule env cfg (λ w1. holds cfg true w1 ≡ true) (λ r. after cfg true r ≡ true)
          tell-holds (λ l w1 i. i) (λ n w1 i. auth_failed-after X509 n w1 i) (λ x w1 i. i) user
          env.certs _ h)
  ]

  configure-cases :
      env.configuration ≡ some cfg
      → (w : World X509)
      → (configure env w ≡ (go cfg, w)) ⊎ (configure env w ≡ (stop authinfo_unavail, w))
  unfolding configure
  configure-cases e w = ground arith

  -- The parts after the configuration.
  rest-after :
      (w1 : World X509)
      → holds cfg false w1 ≡ true
      → after cfg false (authenticate_from env cfg w1) ≡ true
  unfolding authenticate_from
  rest-after w1 h1 =
      after->>= cfg false false (get_login env cfg w1) _ (get_login-after w1 h1) λ user w2 h2.
        after->>= cfg true false (open_module env cfg w2) _ (open_module-after w2 h2) λ u w3 h3.
          after->>= cfg true false (find_token env cfg user w3) _ (find_token-after user w3 h3)
            λ t w4 h4.
              after->>= cfg true false (open_session env cfg t.0 w4) _
                (open_session-after t.0 w4 h4)
                λ u' w5 h5.
                  after->>= cfg true false (card_login env cfg w5) _
                    (card_login-after env cfg stores w5 h5)
                    λ rv w6 h6.
                      after->>= cfg true false (find_cert env cfg t.1 rv w6) _
                        (find_cert-after t.1 rv w6 h6)
                        λ x w7 h7.
                          after->>= cfg true false (check_signature env cfg x w7) _
                            (check_signature-after x w7 h7)
                            λ u'' w8 h8.
                              finish-after (put_environment env x w8)
                                (put_environment-holds x w8 h8)

  authenticate-after :
      env.configuration ≡ some cfg
      → (w : World X509) → holds cfg false w ≡ true
      → after cfg false (authenticate env w) ≡ true
  unfolding authenticate
  authenticate-after e w h = elim (configure-cases e w) [
    | inl c ↦ rw c (rest-after w h)
    | inr c ↦ rw c h
  ]

released :
    {X509 : Type 0} (cfg : Config) (m : Res X509 PamCode) {c : PamCode}
    → after cfg false m ≡ true
    → code_of m.0 ≡ some c
    → (m.1.module_loaded ≡ false) × (m.1.pin ≡ none) × (cfg.quiet ≡ true → m.1.errors ≡ [])
released cfg (go c, w) a r = (ground arith, ground arith, (λ q. ground arith))
released cfg (stop c, w) a r = (ground arith, ground arith, (λ q. ground arith))
released cfg (blocked, w) a r = absurd (cc)

-- Whenever `pam_sm_authenticate` returns, the PKCS #11 module that it has loaded is released and,
-- if PAM stores the password that was asked for, no copy of a PIN is left in memory; and with
-- `quiet` set it has shown no error message.
pub pam_sm_authenticate_cleanup :
    {X509 Block : Type 0} (env : Env X509 Block) {cfg : Config} {c : PamCode} (w : World X509)
    → env.configuration ≡ some cfg
    → is_success env.set_authtok ≡ true
    → w.module_loaded ≡ false
    → w.pin ≡ none
    → w.errors ≡ []
    → (pam_sm_authenticate env w).0 ≡ some c
    → ((pam_sm_authenticate env w).1.module_loaded ≡ false)
      × ((pam_sm_authenticate env w).1.pin ≡ none)
      × (cfg.quiet ≡ true → (pam_sm_authenticate env w).1.errors ≡ [])
unfolding pam_sm_authenticate
pam_sm_authenticate_cleanup env {cfg} w e stores unloaded no_pin silent r =
    let h : holds cfg false w ≡ true = ground arith in
    released cfg (authenticate env w) (authenticate-after env cfg stores e w h) r
