-- ===== src/Pam/Codes.antt =====
-- pam_pkcs11/pam_pkcs11.c: no part of `pam_sm_authenticate` but the last ends it with PAM_SUCCESS.
use pam_pkcs.Base.{ℕ, ◌≡◌, inl, inr, refl, Bool, true, not, Option, arith, Bytes, Bool-cases}
use pam_pkcs.Base.Int.{ℤ, is_neg}
use pam_pkcs.Pam.World.{is_success, Config, Env, World, go, stop, blocked, Res, ◌>>=◌}
use pam_pkcs.Pam.Pin.{auth_failed_nopw, card_login}
use pam_pkcs.Pam.Token.{configure, get_login, open_module, find_token, open_session}
use pam_pkcs.Pam.Certs.{find_cert, check_signature, put_environment, finish}
use pam_pkcs.Pam.Certs.Choice.{choose_cert_rule}
use pam_pkcs.Pam.Authenticate.{authenticate}

-- A phase never ends the function with PAM_SUCCESS.
abbrev pub fails_well : {X509 A : Type 0} → Res X509 A → Bool
fails_well (go a, w) = true
fails_well (stop c, w) = not (is_success c)
fails_well (blocked, w) = true

module _ {X509 : Type 0} {A B : Type 0} where
  fails_well->>= :
      (m : Res X509 A) (f : A → World X509 → Res X509 B)
      → fails_well m ≡ true
      → ((a : A) (w : World X509) → fails_well (f a w) ≡ true)
      → fails_well (m >>= f) ≡ true
  fails_well->>= (go a, w) f h k = k a w
  fails_well->>= (stop c, w) f h k = h
  fails_well->>= (blocked, w) f h k = h

  -- What follows from the phases of a run that goes on follows from the run.
  pub >>=-go_rule :
      {C : Type 0} (m : Res X509 A) (f : A → World X509 → Res X509 B) {b : B} {w' : World X509}
      → (m >>= f) ≡ (go b, w')
      → ((a : A) (w : World X509) → m ≡ (go a, w) → f a w ≡ (go b, w') → C)
      → C
  >>=-go_rule (go a, w) f h k = k a w refl h
  >>=-go_rule (stop c, w) f h k = absurd (cc)
  >>=-go_rule (blocked, w) f h k = absurd (cc)

module _ {X509 Block : Type 0} (env : Env X509 Block) where
  configure-fails : (w : World X509) → fails_well (configure env w) ≡ true
  unfolding configure
  configure-fails w = ground arith

  get_login-fails : (cfg : Config) (w : World X509) → fails_well (get_login env cfg w) ≡ true
  unfolding get_login
  get_login-fails cfg w = ground arith

  open_module-fails : (cfg : Config) (w : World X509) → fails_well (open_module env cfg w) ≡ true
  unfolding open_module
  open_module-fails cfg w = ground arith

  find_token-fails :
      (cfg : Config) (user : Option Bytes) (w : World X509)
      → fails_well (find_token env cfg user w) ≡ true
  unfolding find_token
  find_token-fails cfg user w = ground arith

  open_session-fails :
      (cfg : Config) (i : ℕ) (w : World X509) → fails_well (open_session env cfg i w) ≡ true
  unfolding open_session
  open_session-fails cfg i w = ground arith

  auth_failed-fails :
      (A : Type 0) (cfg : Config) (w : World X509)
      → fails_well (auth_failed_nopw env {A = A} cfg w) ≡ true
  unfolding auth_failed_nopw
  auth_failed-fails A cfg w = ground arith

  card_login-fails : (cfg : Config) (w : World X509) → fails_well (card_login env cfg w) ≡ true
  unfolding card_login
  card_login-fails cfg w = ground arith

  check_signature-fails :
      (cfg : Config) (x : X509) (w : World X509) → fails_well (check_signature env cfg x w) ≡ true
  unfolding check_signature auth_failed_nopw
  check_signature-fails cfg x w = ground arith

  finish-fails : (cfg : Config) (w : World X509) → fails_well (finish env cfg w) ≡ true
  unfolding finish
  finish-fails cfg w = ground arith

  find_cert-fails :
      (cfg : Config) (user : Option Bytes) (rv : ℤ) (w : World X509)
      → fails_well (find_cert env cfg user rv w) ≡ true
  unfolding find_cert
  find_cert-fails cfg user rv w = elim (Bool-cases (is_neg rv)) [
    | inl e ↦ rw e (auth_failed-fails X509 cfg _)
    | inr e ↦ rw e (
        choose_cert_rule env cfg (λ w. Unit) (λ r. fails_well r ≡ true) (λ n w i. tt) (λ l w i. tt)
          (λ n w i. auth_failed-fails X509 cfg _) (λ x w i. refl) user env.certs _ tt)
  ]

  pub authenticate-fails : (w : World X509) → fails_well (authenticate env w) ≡ true
  unfolding authenticate
  authenticate-fails w = fails_well->>= (configure env w) _ (configure-fails w) λ cfg w1.
      fails_well->>= (get_login env cfg w1) _ (get_login-fails cfg w1) λ user w2.
        fails_well->>= (open_module env cfg w2) _ (open_module-fails cfg w2) λ _ w3.
          fails_well->>= (find_token env cfg user w3) _ (find_token-fails cfg user w3) λ token w4.
            fails_well->>= (open_session env cfg token.0 w4) _ (open_session-fails cfg token.0 w4)
              λ _ w5. fails_well->>= (card_login env cfg w5) _ (card_login-fails cfg w5) λ rv w6.
                fails_well->>= (find_cert env cfg token.1 rv w6) _
                  (find_cert-fails cfg token.1 rv w6)
                  λ x w7.
                    fails_well->>= (check_signature env cfg x w7) _ (check_signature-fails cfg x w7)
                      λ _ w8. finish-fails cfg (put_environment env x w8)
