-- ===== src/Pkcs11/Objects/Signing.antt =====
-- What `sign_value` of common/pkcs11_lib.c asks the token to sign.
use pam_pkcs.Base.{
  ℕ, zero, suc, ◌≡◌, refl, inl, inr, ap, sym, subst, List, ◌∷◌, Option, none, some, Bytes, ◌==◌,
  ==_iff, Bool-cases,
}
use pam_pkcs.Base.Int.{ℤ, pos, negsuc}
use pam_pkcs.Pkcs11.Cryptoki.{
  Call, Mechanism, sign_init, sign, is_ok, CertObject, Handle, Cryptoki, ask,
}
use pam_pkcs.Pkcs11.Objects.{
  buffer_too_small, mechanism_of, text_of, get_private_key, sign_loop, sign_with, sign_by,
  sign_found, sign_value,
}

-- The token was told by C_SignInit to sign with this mechanism and this key, and every call since was
-- a C_Sign of this text whose buffer was too small.
pub data IsSigning (mechanism : Mechanism) (key : ℕ) (text : Bytes) : List (Call × ℕ) → Type 0 where
  begun :
      {before : List (Call × ℕ)}
      → IsSigning mechanism key text ((sign_init mechanism key, 0) ∷ before)
  too_small :
      {calls : List (Call × ℕ)} {size : ℕ}
      → IsSigning mechanism key text calls
      → IsSigning mechanism key text ((sign text size, buffer_too_small) ∷ calls)

module _ {X509 : Type 0} (env : Cryptoki X509) where
  -- The last call was a C_Sign of this text, with this mechanism and key, that succeeded and gave this
  -- signature.
  abbrev pub HasSigned : Mechanism → ℕ → Bytes → Bytes → Handle X509 → Type 0
  HasSigned mechanism key text signature h =
      (size : ℕ) × (before : List (Call × ℕ)) × (h.calls ≡ (sign text size, 0) ∷ before)
      × IsSigning mechanism key text before
      × (signature ≡ (env.reply before (sign text size)).value)

  abbrev SignsOnly : Mechanism → ℕ → Bytes → Option (Option Bytes × Handle X509) → Type 0
  SignsOnly mechanism key text none = Unit
  SignsOnly mechanism key text (some (none, h)) = Unit
  SignsOnly mechanism key text (some (some signature, h)) = HasSigned mechanism key text signature h

  sign_loop-SignsOnly :
      (m : Mechanism) (key fuel : ℕ) (text : Bytes) (size : ℕ) (h : Handle X509)
      → IsSigning m key text h.calls
      → SignsOnly m key text (sign_loop env fuel text size h)
  unfolding sign_loop
  sign_loop-SignsOnly m key zero text size h s = tt
  sign_loop-SignsOnly m key (suc fuel) text size h s =
      let (r, h1) = ask env (sign text size) h in
      elim (Bool-cases (r.rv == buffer_too_small)) [
        | inl e ↦ rw e (
            sign_loop-SignsOnly m key fuel text r.count h1 (
              subst (λ n. IsSigning m key text ((sign text size, n) ∷ h.calls))
                (sym ((==_iff r.rv buffer_too_small).0 e)) (too_small s)))
        | inr e ↦ elim (Bool-cases (is_ok r.rv)) [
          | inl o ↦
              rw (e, o)
                (
                  size,
                  h.calls,
                  ap (λ n. (sign text size, n) ∷ h.calls) ((==_iff r.rv 0).0 o),
                  s,
                  refl,
                )
          | inr o ↦ rw (e, o) tt
        ]
      ]

  -- The key of this certificate has signed this text for the data.
  abbrev pub SignsData : CertObject X509 → Bytes → Bytes → Handle X509 → Type 0
  SignsData cert data_bytes signature h =
      (mechanism : Mechanism) × (key : ℕ) × (mechanism_of cert.key_type ≡ some mechanism)
      × (cert.private_key ≡ some key)
      × HasSigned mechanism key (text_of mechanism (env.sha256 data_bytes)) signature h

  sign_with-SignsOnly :
      (fuel : ℕ) (m : Mechanism) (data_bytes : Bytes) (key : ℕ) (h : Handle X509)
      → SignsOnly m key (text_of m (env.sha256 data_bytes)) (sign_with env fuel m data_bytes key h)
  unfolding sign_with
  sign_with-SignsOnly fuel m data_bytes key h =
      let (r, h1) = ask env (sign_init m key) h in
      let text = text_of m (env.sha256 data_bytes) in
      elim (Bool-cases (is_ok r.rv)) [
        | inl e ↦ rw e (
            sign_loop-SignsOnly m key fuel text 64 h1 (
              subst (λ n. IsSigning m key text ((sign_init m key, n) ∷ h.calls))
                (sym ((==_iff r.rv 0).0 e)) begun))
        | inr e ↦ rw e tt
      ]

  Signs : Bytes → Option (Option Bytes × CertObject X509 × Handle X509) → Type 0
  Signs data_bytes none = Unit
  Signs data_bytes (some (none, cert, h)) = Unit
  Signs data_bytes (some (some signature, cert, h)) = SignsData cert data_bytes signature h

  sign_found-Signs :
      (fuel : ℕ) (data_bytes : Bytes) (found : ℤ × CertObject X509 × Handle X509)
      → Signs data_bytes (sign_found env fuel data_bytes found)
  unfolding sign_found sign_by Signs
  sign_found-Signs fuel data_bytes (negsuc n, cert, h) = tt
  sign_found-Signs fuel data_bytes (pos n, cert, h) =
      by_parts (mechanism_of cert.key_type) cert.private_key refl refl
    where
      signed :
          (m : Mechanism) (k : ℕ)
          → mechanism_of cert.key_type ≡ some m
          → cert.private_key ≡ some k
          → (o : Option (Option Bytes × Handle X509))
          → SignsOnly m k (text_of m (env.sha256 data_bytes)) o
          → Signs data_bytes
              (elim o [ none ↦ none | some (signature, h') ↦ some (signature, cert, h') ])
      signed m k e f none s = tt
      signed m k e f (some (none, h')) s = tt
      signed m k e f (some (some signature, h')) s = (m, k, e, f, s)

      by_parts :
          (m : Option Mechanism) (k : Option ℕ)
          → mechanism_of cert.key_type ≡ m
          → cert.private_key ≡ k
          → Signs data_bytes (elim (sign_by env fuel m k data_bytes h) [
            | none ↦ none
            | some (signature, h') ↦ some (signature, cert, h')
          ])
      by_parts none k e f = tt
      by_parts (some m) none e f = tt
      by_parts (some m) (some k) e f =
          signed m k e f (sign_with env fuel m data_bytes k h)
            (sign_with-SignsOnly fuel m data_bytes k h)

  -- A signature that `sign_value` returns is what the last call, a C_Sign, has given. The token was told
  -- by C_SignInit to use the private key of the returned certificate, and the mechanism of its type,
  -- and since then was asked for no other signature; what it signed is the digest of the data, with
  -- the prefix of a SHA-256 digest for an RSA key.
  pub sign_value_sound :
      (fuel : ℕ) (cert cert' : CertObject X509) (data_bytes signature : Bytes) (h h' : Handle X509)
      → sign_value env fuel cert data_bytes h ≡ some (some signature, cert', h')
      → SignsData cert' data_bytes signature h'
  unfolding sign_value Signs
  sign_value_sound fuel cert cert' data_bytes signature h h' e =
      subst (Signs data_bytes) e (sign_found-Signs fuel data_bytes (get_private_key env cert h))
