-- ===== src/Pam/Authenticate.antt =====
-- pam_pkcs11/pam_pkcs11.c: `pam_sm_authenticate` as the sequence of its parts, and the other entry
-- points of the module.
use pam_pkcs.Base.{Bool, ◌&&◌, Option, none, some, is_some}
use pam_pkcs.Pam.World.{
  PamCode, success, service_err, Config, Env, World, Outcome, go, stop, blocked, Res, ◌>>=◌,
}
use pam_pkcs.Pam.Pin.{card_login}
use pam_pkcs.Pam.Token.{configure, get_login, open_module, find_token, open_session}
use pam_pkcs.Pam.Certs.{find_cert, check_signature, put_environment, finish}

module _ {X509 Block : Type 0} (env : Env X509 Block) where
  -- The parts that follow the reading of the configuration.
  unfoldable pub authenticate_from : Config → World X509 → Res X509 PamCode
  authenticate_from cfg w1 = get_login env cfg w1 >>= λ user w2. open_module env cfg w2 >>= λ _ w3.
      find_token env cfg user w3 >>= λ token w4. open_session env cfg token.0 w4 >>= λ _ w5.
      card_login env cfg w5 >>= λ rv w6. find_cert env cfg token.1 rv w6 >>= λ x509 w7.
      check_signature env cfg x509 w7 >>= λ _ w8. finish env cfg (put_environment env x509 w8)

  unfoldable pub authenticate : World X509 → Res X509 PamCode
  unfolding authenticate_from
  authenticate w = configure env w >>= λ cfg w1. authenticate_from cfg w1

-- The code returned, or none where the module still waits for a token.
abbrev pub code_of : Outcome PamCode → Option PamCode
code_of (go c) = some c
code_of (stop c) = some c
code_of blocked = none

unfoldable pub pam_sm_authenticate :
    {X509 Block : Type 0} → Env X509 Block → World X509 → Option PamCode × World X509
unfolding authenticate
pam_sm_authenticate env w = (code_of (authenticate env w).0, (authenticate env w).1)

-- The entry points that do nothing.
pub pam_sm_setcred : PamCode
pam_sm_setcred = success

pub pam_sm_acct_mgmt : PamCode
pam_sm_acct_mgmt = service_err

pub pam_sm_open_session : PamCode
pam_sm_open_session = service_err

pub pam_sm_close_session : PamCode
pam_sm_close_session = service_err

-- The result, and whether a message says that the password cannot be changed; `prelim` is the flag
-- PAM_PRELIM_CHECK.
unfoldable pub pam_sm_chauthtok : {X509 Block : Type 0} → Env X509 Block → Bool → PamCode × Bool
pam_sm_chauthtok env prelim = (service_err, is_some env.login_token_name && prelim)
