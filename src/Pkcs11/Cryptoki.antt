-- ===== src/Pkcs11/Cryptoki.antt =====
-- common/pkcs11_lib.c: the handle of a PKCS #11 module, and the calls that the program makes of the
-- module's function list. What the module answers to a call may depend on all calls before it.
use pam_pkcs.Base.{ℕ, Bool, List, ◌∷◌, Option, Bytes, ◌==◌}
use pam_pkcs.Pkcs11.Slots.{Slot}

-- The objects that C_FindObjectsInit looks for: certificates, or private keys with or without an id.
pub data Template : Type 0 where
  certificates private_keys : Template
  private_keys_of : Bytes → Template

pub data Mechanism : Type 0 where
  rsa_pkcs ecdsa : Mechanism

-- A call of the function list. `get_slot_list` has the capacity of the list that is passed, none if
-- only the number is asked for; `sign` has the capacity of the buffer.
pub data Call : Type 0 where
  get_slot_list : Option ℕ → Call
  get_slot_info get_token_info : ℕ → Call
  initialize : Bool → Call
  get_info finalize logout close_session find_objects find_objects_final : Call
  open_session : ℕ → Call
  login : Option Bytes → Call
  find_objects_init : Template → Call
  get_id get_value get_key_type : ℕ → Call
  sign_init : Mechanism → ℕ → Call
  sign : Bytes → ℕ → Call

-- What a call returns, and what it stores through its pointers.
pub record Reply : Type 0 where
  pub rv : ℕ
  pub count : ℕ
  pub ids : List ℕ
  pub text : Bytes
  pub token_present : Bool
  pub login_required : ℕ
  pub protected_path : ℕ
  pub session : ℕ
  pub object : Option ℕ
  pub value : Bytes
  pub key_type : ℕ

-- CKR_OK
abbrev pub is_ok : ℕ → Bool
is_ok rv = rv == 0

-- The memory that `h->slots` points to.
pub data SlotTable : Type 0 where
  null freed : SlotTable
  live : List Slot → SlotTable

-- `cert_object_t`; CK_INVALID_HANDLE is none.
pub record CertObject (X509 : Type 0) : Type 0 where
  pub id : Bytes
  pub x509 : X509
  pub private_key : Option ℕ
  pub key_type : ℕ

-- `pkcs11_handle_t`, with the calls made so far and what they returned, newest first. The number of
-- certificates is the length of their list, none for a null pointer.
pub record Handle (X509 : Type 0) : Type 0 where
  pub module_open : Bool
  pub should_finalize : Bool
  pub slots : SlotTable
  pub slot_count : ℕ
  pub session : ℕ
  pub certs : Option (List (CertObject X509))
  pub current_slot : ℕ
  pub calls : List (Call × ℕ)

-- The module, and the functions of OpenSSL that read a certificate and hash.
pub record Cryptoki (X509 : Type 0) : Type 0 where
  pub reply : List (Call × ℕ) → Call → Reply
  pub d2i_x509 : Bytes → Option X509
  pub sha256 : Bytes → Bytes

module _ {X509 : Type 0} (env : Cryptoki X509) where
  abbrev pub ask : Call → Handle X509 → Reply × Handle X509
  ask c h = let r = env.reply h.calls c in (r, record h { calls = (c, r.rv) ∷ h.calls })
