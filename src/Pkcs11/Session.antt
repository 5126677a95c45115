-- ===== src/Pkcs11/Session.antt =====
-- common/pkcs11_lib.c: the session with a token, and the login to it.
use pam_pkcs.Base.{
  ℕ, Bool, ◌&&◌, ◌||◌, not, Option, none, some, Bytes, if◌then◌else◌, ◌==◌, leb, length,
}
use pam_pkcs.Base.Int.{ℤ, pos, negsuc, is_zero}
use pam_pkcs.Pkcs11.Slots.{Slot, slot_at}
use pam_pkcs.Pkcs11.Cryptoki.{
  get_token_info, open_session, login, logout, close_session, Reply, is_ok, SlotTable, null, freed,
  live, Handle, Cryptoki, ask,
}

-- The slot of an index, none for an access outside the table.
abbrev pub table_at : SlotTable → ℕ → Option Slot
table_at null n = none
table_at freed n = none
table_at (live l) n = slot_at l n

-- CKR_USER_ALREADY_LOGGED_IN, CKR_USER_NOT_LOGGED_IN, CKR_FUNCTION_NOT_SUPPORTED
abbrev already_logged_in : ℕ
already_logged_in = 256

abbrev not_logged_in : ℕ
not_logged_in = 257

abbrev not_supported : ℕ
not_supported = 84

module _ {X509 : Type 0} (env : Cryptoki X509) where
  unfoldable pub open_pkcs11_session : ℕ → Handle X509 → Option (ℤ × Handle X509)
  open_pkcs11_session slot h =
      if leb h.slot_count slot then some (negsuc 0, h) else elim (table_at h.slots slot) [
        | none ↦ none
        | some s ↦
            let (r, h1) = ask env (open_session s.id) h in
            if is_ok r.rv
            then some (pos 0, record h1 { session = r.session; current_slot = slot })
            else some (negsuc 0, h1)
      ]

  unfoldable pub pkcs11_login : Option Bytes → Handle X509 → ℤ × Handle X509
  pkcs11_login password h =
      let (r, h1) = ask env (login password) h in
      if is_ok r.rv || r.rv == already_logged_in then (pos 0, h1) else (negsuc 0, h1)

  token_flag : (Reply → ℕ) → Handle X509 → Option (ℤ × Handle X509)
  token_flag flag h = elim (table_at h.slots h.current_slot) [
    | none ↦ none
    | some s ↦
        let (r, h1) = ask env (get_token_info s.id) h in
        if is_ok r.rv then some (pos (flag r), h1) else some (negsuc 0, h1)
  ]

  -- The flag of the token, not 0 if it is set.
  unfoldable pub get_slot_login_required : Handle X509 → Option (ℤ × Handle X509)
  unfolding token_flag
  get_slot_login_required h = token_flag (λ r. r.login_required) h

  unfoldable pub get_slot_protected_authentication_path : Handle X509 → Option (ℤ × Handle X509)
  unfolding token_flag
  get_slot_protected_authentication_path h = token_flag (λ r. r.protected_path) h

  abbrev pub get_slot_tokenlabel : Handle X509 → Option Bytes
  get_slot_tokenlabel h = elim (table_at h.slots h.current_slot) [
    | none ↦ none
    | some s ↦ some s.label
  ]

  end_session : Handle X509 → ℤ × Handle X509
  end_session h =
      let (r, h1) = ask env close_session h in
      if is_ok r.rv || r.rv == not_supported
      then (pos 0, record h1 { certs = none })
      else (negsuc 0, h1)

  -- The certificates are freed once the session is closed.
  unfoldable pub close_pkcs11_session : Handle X509 → ℤ × Handle X509
  unfolding end_session
  close_pkcs11_session h =
      let (r, h1) = ask env logout h in
      if is_ok r.rv || (r.rv == not_logged_in || r.rv == not_supported)
      then end_session h1
      else (negsuc 0, h1)

  login_with : Bool → Bytes → Handle X509 → ℤ × Handle X509
  unfolding pkcs11_login
  login_with nullok pin h =
      if not nullok && length pin == 0
      then (negsuc 0, h)
      else if is_zero (pkcs11_login (some pin) h).0
      then (pos 0, (pkcs11_login (some pin) h).1)
      else (negsuc 0, (pkcs11_login (some pin) h).1)

  -- The PIN that getpass reads, none for an error.
  unfoldable pub pkcs11_pass_login : Option Bytes → Bool → Handle X509 → ℤ × Handle X509
  unfolding login_with
  pkcs11_pass_login none nullok h = (negsuc 0, h)
  pkcs11_pass_login (some pin) nullok h = login_with nullok pin h
