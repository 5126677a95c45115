-- ===== src/CertVfy/Signature.antt =====
-- common/cert_vfy.c, the OpenSSL build: the check of the signature that the card has made. OpenSSL
-- is the parameter `Evp`.
use pam_pkcs.Base.{
  ℕ, ◌+◌, ◌*◌, [], ◌∷◌, ◌∙◌, ◌/◌, ◌≡◌, ◌↔◌, refl, sym, Bool, true, ◌++◌, Option, none, some, Bytes,
  if◌then◌else◌, length, take, drop, length-append, take-append, drop-append, take-length, arith,
}
use pam_pkcs.Base.Int.{ℤ, pos, negsuc, is_one}

-- `sig_new` is ECDSA_SIG_new. `bin2bn_r` is what BN_bin2bn leaves in the signature when it is to
-- write these bytes to the number of ECDSA_SIG_get0_r, and `bin2bn_s` the same for s. `i2d` is the
-- encoding by i2d_ECDSA_SIG, if it succeeds, and `verify_final` the result of EVP_VerifyFinal for
-- the data, a signature and a key.
pub record Evp (X509 Key Sig : Type 0) : Type 0 where
  pub get_pubkey : X509 → Option Key
  pub is_ec : Key → Bool
  pub sig_new : Sig
  pub bin2bn_r : Bytes → Sig → Sig
  pub bin2bn_s : Bytes → Sig → Sig
  pub i2d : Sig → Option Bytes
  pub verify_final : Bytes → Option Bytes → Key → ℤ

-- The number that bytes stand for, the highest one first.
abbrev bn_from : ℕ → Bytes → ℕ
bn_from n [] = n
bn_from n (c ∷ s) = bn_from (n * 256 + c) s

abbrev pub bn_value : Bytes → ℕ
bn_value s = bn_from 0 s

-- What the documentation of OpenSSL before 1.1.0 says: BN_bin2bn writes the number of the bytes to r,
-- or to s, and i2d_ECDSA_SIG gives the encoding `der` of the two numbers that a signature has.
pub record IsWriting {X509 Key Sig : Type 0} (o : Evp X509 Key Sig) (get_r get_s : Sig → Option ℕ)
    (der : ℕ → ℕ → Bytes) : Type 0 where
  pub r_written : (b : Bytes) (sig : Sig) → get_r (o.bin2bn_r b sig) ≡ some (bn_value b)
  pub r_kept : (b : Bytes) (sig : Sig) → get_r (o.bin2bn_s b sig) ≡ get_r sig
  pub s_written : (b : Bytes) (sig : Sig) → get_s (o.bin2bn_s b sig) ≡ some (bn_value b)
  pub encoded :
      (sig : Sig) (r s : ℕ) → get_r sig ≡ some r → get_s sig ≡ some s → o.i2d sig ≡ some (der r s)

module _ {X509 Key Sig : Type 0} (o : Evp X509 Key Sig) where
  -- The halves of the signature of the token are r and s; a last odd byte is left out.
  unfoldable pub encode_signature : Bytes → Option Bytes
  encode_signature signature =
      let rs_len = length signature / 2 in
      o.i2d (
        o.bin2bn_s (take rs_len (drop rs_len signature))
          (o.bin2bn_r (take rs_len signature) o.sig_new))

  signature_for : Key → Bytes → Option Bytes
  signature_for key signature = if o.is_ec key then encode_signature signature else some signature

  verify_with : Option Key → Bytes → Bytes → ℤ × Option Bytes
  unfolding signature_for
  verify_with none text signature = (negsuc 0, some signature)
  verify_with (some key) text signature =
      let s = signature_for key signature in
      (if is_one (o.verify_final text s key) then pos 0 else negsuc 0, s)

  -- The result, and the signature that is left to the caller.
  unfoldable pub verify_signature : X509 → Bytes → Bytes → ℤ × Option Bytes
  unfolding verify_with
  verify_signature x509 text signature = verify_with (o.get_pubkey x509) text signature

  half : (r s : Bytes) → length r ≡ length s → length (r ++ s) / 2 ≡ length r
  half r s e = omega (arith, e, length-append r s)

  encode_signature-append :
      (r s : Bytes)
      → length r ≡ length s
      → encode_signature (r ++ s) ≡ o.i2d (o.bin2bn_s s (o.bin2bn_r r o.sig_new))
  unfolding encode_signature
  encode_signature-append r s e =
      rw (encode_signature, half r s e, take-append r s, drop-append r s, e, take-length s) refl

  encode_signature-blind :
      (signature : Bytes)
      → ((b : Bytes) → o.bin2bn_r b o.sig_new ≡ o.sig_new)
      → ((b : Bytes) → o.bin2bn_s b o.sig_new ≡ o.sig_new)
      → encode_signature signature ≡ o.i2d o.sig_new
  unfolding encode_signature
  encode_signature-blind signature r s =
      let n = length signature / 2 in
      rw (encode_signature, r (take n signature), s (take n (drop n signature))) refl

  verify_with-ec :
      (key : Key) (text signature : Bytes)
      → o.is_ec key ≡ true
      → verify_with (some key) text signature ≡ (
        if is_one (o.verify_final text (encode_signature signature) key) then pos 0 else negsuc 0,
        encode_signature signature,
      )
  unfolding verify_with signature_for
  verify_with-ec key text signature c = rw c refl

  verify_with_iff :
      (key : Key) (text signature : Bytes)
      → o.is_ec key ≡ true
      → ((verify_with (some key) text signature).0 ≡ pos 0)
        ↔ (is_one (o.verify_final text (encode_signature signature) key) ≡ true)
  unfolding verify_with signature_for
  verify_with_iff key text signature c = (ground arith, ground arith)

  module _ (get_r get_s : Sig → Option ℕ) (der : ℕ → ℕ → Bytes)
      (writing : IsWriting o get_r get_s der) where
    encode_signature-bn_value :
        (r s : Bytes)
        → length r ≡ length s
        → encode_signature (r ++ s) ≡ some (der (bn_value r) (bn_value s))
    encode_signature-bn_value r s e =
        encode_signature-append r s e
        ∙ writing.encoded (o.bin2bn_s s (o.bin2bn_r r o.sig_new)) (bn_value r) (bn_value s)
            (writing.r_kept s (o.bin2bn_r r o.sig_new) ∙ writing.r_written r o.sig_new)
            (writing.s_written s (o.bin2bn_r r o.sig_new))

    -- With an OpenSSL before 1.1.0, where BN_bin2bn writes to the numbers of a new ECDSA_SIG, and with
    -- an EC key: the signature that is two numbers of the same width, r before s and the highest byte
    -- of each first, is accepted exactly when OpenSSL accepts the encoding of those two numbers for
    -- the data and the key of the certificate, whatever their width.
    pub verify_signature-bn_value :
        (x509 : X509) (key : Key) (text r s : Bytes)
        → o.get_pubkey x509 ≡ some key
        → o.is_ec key ≡ true
        → length r ≡ length s
        → ((verify_signature x509 text (r ++ s)).0 ≡ pos 0)
          ↔ (is_one (o.verify_final text (some (der (bn_value r) (bn_value s))) key) ≡ true)
    unfolding verify_signature
    verify_signature-bn_value x509 key text r s k c e =
        rw (k, sym (encode_signature-bn_value r s e)) (verify_with_iff key text (r ++ s) c)

  -- Where BN_bin2bn leaves the new signature as it is, as with an OpenSSL from 1.1.0 on, whose
  -- ECDSA_SIG_get0_r and ECDSA_SIG_get0_s give a null pointer for it, the result for an EC key does
  -- not depend on the signature.
  pub verify_signature-blind :
      (x509 : X509) (key : Key) (text signature other : Bytes)
      → ((b : Bytes) → o.bin2bn_r b o.sig_new ≡ o.sig_new)
      → ((b : Bytes) → o.bin2bn_s b o.sig_new ≡ o.sig_new)
      → o.get_pubkey x509 ≡ some key
      → o.is_ec key ≡ true
      → verify_signature x509 text signature ≡ verify_signature x509 text other
  unfolding verify_signature
  verify_signature-blind x509 key text signature other r s k c =
      let blind = λ (t : Bytes). encode_signature-blind t r s in
      rw k (
        rw (verify_with-ec key text signature c)
          (rw (verify_with-ec key text other c) (rw (blind signature) (rw (blind other) refl))))
