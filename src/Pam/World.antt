-- ===== src/Pam/World.antt =====
-- The surroundings of pam_pkcs11/pam_pkcs11.c: the configuration, the answers of PAM, of the
-- PKCS #11 library and of the other parts of the program (the record `Env`), and the state that
-- the module keeps while it runs (the record `World`). Text prompts, syslog and sleeps are left out.
use pam_pkcs.Base.{ℕ, Bool, true, false, List, ◌∷◌, Option, Bytes, if◌then◌else◌}
use pam_pkcs.Base.Int.{ℤ}
use pam_pkcs.CertVfy.{CertPolicy}
use pam_pkcs.MapperMgr.{Mgr, Loader}
use pam_pkcs.Pkcs11.Slots.{Slot}

pub data PamCode : Type 0 where
  success authinfo_unavail cred_insufficient user_unknown ignore auth_err service_err : PamCode
  other_code : ℕ → PamCode

abbrev pub is_success : PamCode → Bool
is_success success = true
is_success _ = false

-- The fields of `struct configuration_st` that decide what the module does.
pub record Config : Type 0 where
  pub nullok : Bool
  pub try_first_pass : Bool
  pub use_first_pass : Bool
  pub card_only : Bool
  pub wait_for_card : Bool
  pub screen_savers : Option (List Bytes)
  pub slot_description : Option Bytes
  pub slot_num : ℤ
  pub policy : CertPolicy
  pub quiet : Bool

-- The result of each call that leaves the file, with what it stores through its pointers.
pub record Env (X509 Block : Type 0) : Type 0 where
  pub configuration : Option Config
  pub display : Option Bytes
  pub login_token_name : Option Bytes
  pub crypto_init : ℤ
  -- pam_get_item for PAM_SERVICE and PAM_USER, and pam_get_user
  pub service : Bytes
  pub user_item : PamCode × Option Bytes
  pub get_user : PamCode × Option Bytes
  -- load_pkcs11_module, init_pkcs11_module; the slot table after it, and after each refresh
  pub load_module : ℤ
  pub init_module : ℤ
  pub slots : List Slot
  pub polls : List (List Slot)
  pub open_session : ℕ → ℤ
  pub login_required : ℤ
  pub protected_path : ℤ
  -- pam_get_item for the stored password and for PAM_CONV, the conversation, and pam_set_item
  pub authtok : PamCode × Option Bytes
  pub conv_item : PamCode × Bool
  pub conv_answer : PamCode × Option Bytes
  pub set_authtok : PamCode
  pub login : Option Bytes → ℤ
  -- the certificates of the token, null pointers among them
  pub certs : List (Option X509)
  pub verify_certificate : X509 → ℤ
  pub mappers : Loader X509 Block
  pub set_user : Bytes → PamCode
  -- get_random_value, sign_value and verify_signature
  pub random_value : Option Bytes
  pub sign_value : X509 → Bytes → Option Bytes
  pub verify_signature : X509 → Bytes → Bytes → ℤ
  pub token_label : Bytes
  pub issuer : X509 → Option (List Bytes)
  pub serial : X509 → Option (List Bytes)
  pub putenv : Bytes → PamCode
  pub close_session : ℤ

-- The error messages shown, newest first; the handle of the PKCS #11 module; its session; the copy
-- of the PIN in memory that was not erased yet; the mapper modules; the PAM item and environment.
pub record World (X509 : Type 0) : Type 0 where
  pub errors : List ℕ
  pub module_loaded : Bool
  pub session_open : Bool
  pub pin : Option Bytes
  pub mgr : Mgr X509
  pub pam_user : Option Bytes
  pub environ : List Bytes

-- A call goes on with a value, ends `pam_sm_authenticate` with a code, or waits for ever.
pub data Outcome {ℓ} (A : Type ℓ) : Type ℓ where
  go : A → Outcome A
  stop : PamCode → Outcome A
  blocked : Outcome A

abbrev pub Res : Type 0 → Type 0 → Type 0
Res X509 A = Outcome A × World X509

module _ {X509 : Type 0} {A B : Type 0} where
  infixl 5 ◌>>=◌
  abbrev pub ◌>>=◌ : Res X509 A → (A → World X509 → Res X509 B) → Res X509 B
  (go a, w) >>= f = f a w
  (stop c, w) >>= f = (stop c, w)
  (blocked, w) >>= f = (blocked, w)

module _ {X509 : Type 0} where
  -- `if (!configuration->quiet) pam_prompt(pamh, PAM_ERROR_MSG, NULL, "Error n: …")`
  unfoldable pub tell : Config → ℕ → World X509 → World X509
  tell cfg n w = if cfg.quiet then w else record w { errors = n ∷ w.errors }

  unfoldable pub release_module : World X509 → World X509
  release_module w = record w { module_loaded = false }

-- `pkcs11_pam_fail`
abbrev pub pam_fail : Config → PamCode
pam_fail cfg = if cfg.card_only then cred_insufficient else authinfo_unavail
