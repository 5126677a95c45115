-- ===== src/Mappers/Openssh/Blob.antt =====
-- `ssh2_line_to_key` of mappers/openssh_mapper.c on the blob that `cert_info_sshpuk` of
-- common/cert_info.c writes.
use pam_pkcs.Base.{
  ℕ, ◌+◌, ◌*◌, ◌/◌, ◌%◌, ◌<◌, ◌≤◌, ◌≡◌, refl, sym, ap, ◌∙◌, subst, append-nil, arith, true, inl,
  inr, [], ◌∷◌, ◌++◌, some, Bytes, All, All-append, leb, ltb, length, length-append, take-append,
  drop-append, Bool-cases,
}
use mathlib.Core.Path.{ap₂}
use pam_pkcs.Base.Cstr.{codes}
use pam_pkcs.Base64.Roundtrip.{IsByte}
use pam_pkcs.CertInfo.Sshpuk.{Bignums, int_append, with_sign, counted, bn_append, rsa_blob}
use pam_pkcs.Mappers.Openssh.{key, read_int, read_bytes, buffer_starts_with, numbers, key_from_blob}

-- What the documentation says of BN_bn2bin and BN_bin2bn.
pub record IsBignums {Bn : Type 0} (lib : Bignums Bn) : Type 0 where
  pub zero_bytes : (b : Bn) → lib.bn_is_zero b ≡ true → lib.bn2bin b ≡ []
  pub bytes : (b : Bn) → All IsByte (lib.bn2bin b)
  pub leading : (s : Bytes) → lib.bin2bn (0 ∷ s) ≡ lib.bin2bn s
  pub back : (b : Bn) → lib.bn_eq (lib.bin2bn (lib.bn2bin b)) b ≡ true

abbrev pub int_range : ℕ
int_range = 0x80000000

int_append-IsByte : (n : ℕ) → All IsByte (int_append n)
unfolding int_append
int_append-IsByte n = (omega arith, (omega arith, (omega arith, (omega arith, _))))

read_int-int_append :
    (n : ℕ) (s : Bytes) → n < int_range → read_int (int_append n ++ s) ≡ some (n, s)
unfolding read_int int_append
read_int-int_append n s h =
    let small : ltb (n / 16777216 % 256) 128 ≡ true = ground (arith, h) in
    let value : n / 16777216 % 256 * 16777216
          + n / 65536 % 256 * 65536
          + n / 256 % 256 * 256
          + n % 256
        ≡ n =
      omega (arith, h) in
    rw small (ap (λ m. some (m, s)) value)

read_bytes-counted :
    (s t : Bytes) → length s < int_range → read_bytes (read_int (counted s ++ t)) ≡ some (s, t)
unfolding read_bytes int_append
read_bytes-counted s t h =
    let fits : leb (length s) (length (s ++ t)) ≡ true = ground (arith, length-append s t) in
    ap read_bytes (read_int-int_append (length s) (s ++ t) h)
    ∙ rw (fits, take-append s t, drop-append s t) refl

length-with_sign : (s : Bytes) → length (with_sign s) ≤ length s + 1
unfolding with_sign
length-with_sign [] = omega arith
length-with_sign (b ∷ s) = ground arith

with_sign-IsByte : (s : Bytes) → All IsByte s → All IsByte (with_sign s)
unfolding with_sign
with_sign-IsByte [] h = h
with_sign-IsByte (b ∷ s) h = elim (Bool-cases (leb 128 b)) [
  | inl e ↦ rw e (omega arith, h)
  | inr e ↦ rw e h
]

counted-IsByte : (s : Bytes) → All IsByte s → All IsByte (counted s)
counted-IsByte s h = All-append IsByte (int_append (length s)) s (int_append-IsByte (length s)) h

module _ {Bn : Type 0} (lib : Bignums Bn) (laws : IsBignums lib) where
  bin2bn-with_sign : (s : Bytes) → lib.bin2bn (with_sign s) ≡ lib.bin2bn s
  unfolding with_sign
  bin2bn-with_sign [] = refl
  bin2bn-with_sign (b ∷ s) = ground (arith, laws.leading (b ∷ s))

  bn_append_lem : (b : Bn) → bn_append lib b ≡ counted (with_sign (lib.bn2bin b))
  unfolding bn_append with_sign
  bn_append_lem b = elim (Bool-cases (lib.bn_is_zero b)) [
    | inl e ↦ rw (e, laws.zero_bytes b e) refl
    | inr e ↦ rw e refl
  ]

  bn_append-IsByte : (b : Bn) → All IsByte (bn_append lib b)
  bn_append-IsByte b =
      subst (λ s. All IsByte s) (sym (bn_append_lem b))
        (counted-IsByte (with_sign (lib.bn2bin b)) (with_sign-IsByte (lib.bn2bin b) (laws.bytes b)))

  pub rsa_blob-IsByte : (n e : Bn) → All IsByte (rsa_blob lib n e)
  unfolding rsa_blob
  rsa_blob-IsByte n e =
      All-append IsByte (counted (codes "ssh-rsa")) (bn_append lib e ++ bn_append lib n)
        (counted-IsByte (codes "ssh-rsa") (omega arith))
        (All-append IsByte (bn_append lib e) (bn_append lib n) (bn_append-IsByte e)
          (bn_append-IsByte n))

  key_from_blob-type :
      (rest : Bytes)
      → key_from_blob lib (counted (codes "ssh-rsa") ++ rest)
        ≡ numbers lib (read_bytes (read_int rest))
  unfolding key_from_blob buffer_starts_with read_int int_append
  key_from_blob-type rest =
      let fits : leb 7 (length (codes "ssh-rsa" ++ rest)) ≡ true = ground arith in rw fits refl

  numbers_lem :
      (s t : Bytes)
      → length s < int_range
      → length t < int_range
      → numbers lib (read_bytes (read_int (counted s ++ counted t)))
        ≡ key (lib.bin2bn t) (lib.bin2bn s)
  unfolding numbers
  numbers_lem s t h l =
      let last : read_bytes (read_int (counted t)) ≡ some (t, []) =
        subst (λ x. read_bytes (read_int x) ≡ some (t, [])) (append-nil (counted t))
          (read_bytes-counted t [] l) in
      ap (numbers lib) (read_bytes-counted s (counted t) h) ∙ rw (numbers, last) refl

  -- The key that was written, as far as BN_cmp tells.
  pub key_from_blob-rsa_blob :
      (n e : Bn)
      → length (rsa_blob lib n e) ≤ 8192
      → key_from_blob lib (rsa_blob lib n e)
        ≡ key (lib.bin2bn (lib.bn2bin n)) (lib.bin2bn (lib.bn2bin e))
  unfolding rsa_blob int_append
  key_from_blob-rsa_blob n e h =
      let s = with_sign (lib.bn2bin e) in
      let t = with_sign (lib.bn2bin n) in
      let es : bn_append lib e ≡ counted s = bn_append_lem e in
      let et : bn_append lib n ≡ counted t = bn_append_lem n in
      let size : length (counted s) + length (counted t) ≤ 8192 =
        omega (
          arith,
          h,
          ap length es,
          ap length et,
          length-append (bn_append lib e) (bn_append lib n),
        ) in
      key_from_blob-type (bn_append lib e ++ bn_append lib n)
      ∙ ap₂ (λ x y. numbers lib (read_bytes (read_int (x ++ y)))) es et
      ∙ numbers_lem s t (omega (arith, size)) (omega (arith, size))
      ∙ ap₂ (λ x y. key x y) (bin2bn-with_sign (lib.bn2bin n)) (bin2bn-with_sign (lib.bn2bin e))
