-- ===== src/CertInfo/Serial.antt =====
-- The serial number that common/cert_info.c picks out of its DER form.
use pam_pkcs.Base.{
  ℕ, ◌+◌, ◌-◌, ◌%◌, ◌<◌, ◌≡◌, refl, ap, ◌∙◌, arith, true, false, [], ◌∷◌, some, Bytes,
  if◌then◌else◌, leb, length, take, Bool-cases,
}
use pam_pkcs.Base.{inl, inr}
use pam_pkcs.Strings.Hex.{bin2hex}
use pam_pkcs.CertInfo.{outside, entry, serial_of, cert_info_serial_number}

take_all : (s : Bytes) → take (length s) s ≡ s
take_all [] = refl
take_all (c ∷ s) = ap (λ t. c ∷ t) (take_all s)

-- `cert_info_serial_number` gives the bytes behind the two first in hexadecimal where the second is a
-- length, and reads outside its buffer where the second is a number of bytes of length, at least one.
pub cert_info_serial_number_lem :
    (tag size : ℕ) (rest : Bytes)
    → (leb 128 size ≡ true → 0 < size % 128)
    → cert_info_serial_number (some (tag ∷ size ∷ rest))
      ≡ (if leb 128 size then outside else entry (some (bin2hex rest)))
unfolding cert_info_serial_number serial_of
cert_info_serial_number_lem tag size rest h = elim (Bool-cases (leb 128 size)) [
  | inl e ↦
      let k : leb (2 + size % 128 + (length (tag ∷ size ∷ rest) - 2 + size % 128))
            (length (tag ∷ size ∷ rest))
          ≡ false =
        ground (arith, h e) in
      rw (e, k) refl
  | inr e ↦
      let k : leb (2 + (length (tag ∷ size ∷ rest) - 2)) (length (tag ∷ size ∷ rest)) ≡ true =
        ground arith in
      let n : length (tag ∷ size ∷ rest) - 2 ≡ length rest = omega arith in
      rw (e, k) (ap (λ t. entry (some (bin2hex t))) (ap (λ m. take m rest) n ∙ take_all rest))
]
