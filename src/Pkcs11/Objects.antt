-- ===== src/Pkcs11/Objects.antt =====
-- common/pkcs11_lib.c: the certificates and private keys of a token, and signing, in the build with
-- SHA-256.
pub mod Searches
pub mod Signing
pub mod Ends
use pam_pkcs.Base.{
  ℕ, zero, suc, Bool, true, false, not, List, [], ◌∷◌, ◌++◌, Option, none, some, Bytes,
  if◌then◌else◌, ◌==◌, length,
}
use pam_pkcs.Base.Int.{ℤ, pos, negsuc}
use pam_pkcs.Pkcs11.Cryptoki.{
  Call, Template, certificates, private_keys, private_keys_of, Mechanism, rsa_pkcs, ecdsa,
  find_objects, find_objects_init, find_objects_final, get_id, get_value, get_key_type, sign_init,
  sign, Reply, is_ok, CertObject, Handle, Cryptoki, ask,
}

-- The array of certificates, and an array with one more.
abbrev pub certs_of : {X509 : Type 0} → Option (List (CertObject X509)) → List (CertObject X509)
certs_of none = []
certs_of (some l) = l

-- CKR_BUFFER_TOO_SMALL
abbrev pub buffer_too_small : ℕ
buffer_too_small = 336

-- The DER prefix of a SHA-256 digest.
abbrev pub digest_info : Bytes
digest_info =
    0x30 ∷ 0x31 ∷ 0x30 ∷ 0x0d ∷ 0x06 ∷ 0x09 ∷ 0x60 ∷ 0x86 ∷ 0x48 ∷ 0x01 ∷ 0x65 ∷ 0x03 ∷ 0x04 ∷ 0x02
    ∷ 0x01 ∷ 0x05 ∷ 0x00 ∷ 0x04 ∷ 0x20 ∷ []

-- The mechanism for a key type, CKK_RSA or CKK_ECDSA, and what it signs: for ECDSA the digest alone.
unfoldable pub mechanism_of : ℕ → Option Mechanism
mechanism_of key_type =
    if key_type == 0 then some rsa_pkcs else if key_type == 3 then some ecdsa else none

abbrev pub text_of : Mechanism → Bytes → Bytes
text_of rsa_pkcs hash = digest_info ++ hash
text_of ecdsa hash = hash

module _ {X509 : Type 0} (env : Cryptoki X509) where
  -- The attributes of a certificate, each with a call for its length and one for its value.
  read_value : ℕ → Bytes → Handle X509 → Option (CertObject X509) × Handle X509
  read_value object id_value h =
      let (l, h1) = ask env (get_value object) h in
      let (v, h2) = ask env (get_value object) h1 in
      if not (is_ok l.rv)
      then (none, h1)
      else if not (is_ok v.rv)
      then (none, h2)
      else elim (env.d2i_x509 v.value) [
        | none ↦ (none, h2)
        | some x509 ↦
            (some (record { id = id_value; x509 = x509; private_key = none; key_type = 0 }), h2)
      ]

  read_object : ℕ → Handle X509 → Option (CertObject X509) × Handle X509
  unfolding read_value
  read_object object h =
      let (l, h1) = ask env (get_id object) h in
      let (v, h2) = ask env (get_id object) h1 in
      if not (is_ok l.rv)
      then (none, h1)
      else if not (is_ok v.rv)
      then (none, h2)
      else read_value object v.value h2

  -- The exit at `getlist_error`.
  getlist_error : Handle X509 → Option (List (CertObject X509)) × Handle X509
  getlist_error h = (none, record (ask env find_objects_final h).1 { certs = none })

  end_list : Handle X509 → Option (List (CertObject X509)) × Handle X509
  end_list h =
      let (r, h1) = ask env find_objects_final h in
      if is_ok r.rv then (some (certs_of h1.certs), h1) else (none, record h1 { certs = none })

  -- What is done after C_FindObjects and the reading of the object; `next` is the rest of the loop.
  add_object :
      Option (CertObject X509) × Handle X509
      → (Handle X509 → Option (Option (List (CertObject X509)) × Handle X509))
      → Option (Option (List (CertObject X509)) × Handle X509)
  unfolding getlist_error
  add_object (none, h) next = some (getlist_error h)
  add_object (some c, h) next = next (record h { certs = some (certs_of h.certs ++ c ∷ []) })

  list_objects : ℕ → Handle X509 → Option (Option (List (CertObject X509)) × Handle X509)
  unfolding read_object add_object end_list getlist_error
  list_objects zero h = none
  list_objects (suc fuel) h =
      let (r, h1) = ask env find_objects h in
      if not (is_ok r.rv) then some (getlist_error h1) else elim r.object [
        | none ↦ some (end_list h1)
        | some object ↦ add_object (read_object object h1) (list_objects fuel)
      ]

  -- The list, or none for an error, which leaves `*ncerts` as it was. The outer `none` stands for a
  -- token that has more objects than the fuel.
  unfoldable pub get_certificate_list :
      ℕ → Handle X509 → Option (Option (List (CertObject X509)) × Handle X509)
  unfolding list_objects
  get_certificate_list fuel h = elim h.certs [
    | some l ↦ some (some l, h)
    | none ↦
        let (r, h1) = ask env (find_objects_init certificates) h in
        if is_ok r.rv then list_objects fuel h1 else some (none, h1)
  ]

  -- The exit at `get_privkey_failed`.
  get_privkey_failed : CertObject X509 → Handle X509 → ℤ × CertObject X509 × Handle X509
  get_privkey_failed cert h = (negsuc 0, cert, (ask env find_objects_final h).1)

  read_key : ℕ → CertObject X509 → Handle X509 → ℤ × CertObject X509 × Handle X509
  read_key object cert h =
      let (f, h1) = ask env find_objects_final h in
      let (r, h2) = ask env (get_key_type object) h1 in
      if not (is_ok f.rv)
      then (negsuc 0, cert, h1)
      else if not (is_ok r.rv)
      then (negsuc 0, cert, h2)
      else (pos 0, record cert { private_key = some object; key_type = r.key_type }, h2)

  find_key : Template → CertObject X509 → Handle X509 → ℤ × CertObject X509 × Handle X509
  unfolding get_privkey_failed read_key
  find_key template cert h =
      let (i, h1) = ask env (find_objects_init template) h in
      let (r, h2) = ask env find_objects h1 in
      if not (is_ok i.rv)
      then (negsuc 0, cert, h1)
      else if not (is_ok r.rv)
      then get_privkey_failed cert h2
      else elim r.object [
        | none ↦ get_privkey_failed cert h2
        | some object ↦ read_key object cert h2
      ]

  -- The certificate with its private key.
  unfoldable pub get_private_key : CertObject X509 → Handle X509 → ℤ × CertObject X509 × Handle X509
  unfolding find_key
  get_private_key cert h = elim cert.private_key [
    | some object ↦ (pos 0, cert, h)
    | none ↦ elim cert.id [
      | [] ↦ find_key private_keys cert h
      | c ∷ id ↦ find_key (private_keys_of cert.id) cert h
    ]
  ]

  -- The loop of `sign_value`: the buffer grows while it is too small.
  unfoldable pub sign_loop : ℕ → Bytes → ℕ → Handle X509 → Option (Option Bytes × Handle X509)
  sign_loop zero text size h = none
  sign_loop (suc fuel) text size h =
      let (r, h1) = ask env (sign text size) h in
      let again = sign_loop fuel text r.count h1 in
      if r.rv == buffer_too_small
      then again
      else if is_ok r.rv
      then some (some r.value, h1)
      else some (none, h1)

  sign_with : ℕ → Mechanism → Bytes → ℕ → Handle X509 → Option (Option Bytes × Handle X509)
  unfolding sign_loop
  sign_with fuel mechanism data_bytes key h =
      let (r, h1) = ask env (sign_init mechanism key) h in
      if is_ok r.rv
      then sign_loop fuel (text_of mechanism (env.sha256 data_bytes)) 64 h1
      else some (none, h1)

  sign_by :
      ℕ → Option Mechanism → Option ℕ → Bytes → Handle X509 → Option (Option Bytes × Handle X509)
  unfolding sign_with
  sign_by fuel none key data_bytes h = some (none, h)
  sign_by fuel (some mechanism) none data_bytes h = some (none, h)
  sign_by fuel (some mechanism) (some key) data_bytes h = sign_with fuel mechanism data_bytes key h

  sign_found :
      ℕ
      → Bytes
      → ℤ × CertObject X509 × Handle X509
      → Option (Option Bytes × CertObject X509 × Handle X509)
  unfolding sign_by mechanism_of
  sign_found fuel data_bytes (negsuc n, cert, h) = some (none, cert, h)
  sign_found fuel data_bytes (pos n, cert, h) =
      elim (sign_by fuel (mechanism_of cert.key_type) cert.private_key data_bytes h) [
        | none ↦ none
        | some (signature, h') ↦ some (signature, cert, h')
      ]

  -- The signature, none for a result of -1; the outer `none` stands for a loop that has not ended.
  unfoldable pub sign_value :
      ℕ
      → CertObject X509
      → Bytes
      → Handle X509
      → Option (Option Bytes × CertObject X509 × Handle X509)
  unfolding get_private_key sign_found
  sign_value fuel cert data_bytes h = sign_found fuel data_bytes (get_private_key cert h)
