-- ===== src/CertVfy/Download.antt =====
-- `download_crl` of common/cert_vfy.c: a CRL in PEM or DER form. The fetcher of uri.c and the parser of
-- OpenSSL are parameters; the parser is given the bytes that are there and the length that is passed.
pub mod Pem
use pam_pkcs.Base.{
  ℕ, suc, ◌+◌, ◌-◌, List, [], ◌∷◌, ◌++◌, Option, none, some, Bytes, if◌then◌else◌, ◌==◌, ltb,
  length, drop, take,
}
use pam_pkcs.Base.Cstr.{codes, starts_with}
use pam_pkcs.Base64.{base64_decode}

abbrev pub begin_mark : Bytes
begin_mark = codes "-----BEGIN X509 CRL-----"

abbrev pub end_mark : Bytes
end_mark = codes "-----END X509 CRL-----"

abbrev after_one : Option ℕ → Option ℕ
after_one none = none
after_one (some n) = some (suc n)

-- The place of the first mark in the data.
unfoldable pub find_mark : Bytes → Bytes → Option ℕ
unfolding starts_with
find_mark mark [] = none
find_mark mark (c ∷ s) = if starts_with (c ∷ s) mark then some 0 else after_one (find_mark mark s)

-- What stands before the first null.
unfoldable pub until_null : Bytes → Bytes
until_null [] = []
until_null (c ∷ s) = if c == 0 then [] else c ∷ until_null s

-- The string that is decoded once a null was put in the place of the second mark.
unfoldable pub pem_text : Bytes → ℕ → ℕ → Bytes
unfolding until_null
pem_text data_bytes i j =
    until_null (drop (i + 24) (take j data_bytes ++ 0 ∷ drop (j + 1) data_bytes))

-- A reading outside the data, or the CRL, none for a null pointer.
pub data Download (Crl : Type 0) : Type 0 where
  outside : Download Crl
  result : Option Crl → Download Crl

-- -1 as a `size_t`
abbrev pub minus_one : ℕ
minus_one = 0xFFFFFFFFFFFFFFFF

module _ {Crl : Type 0} (d2i_crl : Bytes → ℕ → Option Crl) where
  -- The result of -1 is not told from a length, since that is of type `size_t`.
  unfoldable pub parse_decoded : Option (Option Bytes) → Download Crl
  parse_decoded none = outside
  parse_decoded (some none) = result (d2i_crl [] minus_one)
  parse_decoded (some (some [])) = result none
  parse_decoded (some (some (c ∷ der))) = result (d2i_crl (c ∷ der) (length (c ∷ der)))

  unfoldable pub parse_marked : Bytes → Option ℕ → Option ℕ → Download Crl
  unfolding parse_decoded pem_text
  parse_marked data_bytes (some i) (some j) =
      if ltb i j
      then parse_decoded (base64_decode (pem_text data_bytes i j) (j - i + 1))
      else result (d2i_crl data_bytes (length data_bytes))
  parse_marked data_bytes none j = result (d2i_crl data_bytes (length data_bytes))
  parse_marked data_bytes (some i) none = result (d2i_crl data_bytes (length data_bytes))

  -- With less data than the first mark is long, the bound of the first loop is not below zero but
  -- wraps around, and the loop reads on behind the data.
  unfoldable pub parse_crl : Bytes → Download Crl
  unfolding parse_marked find_mark
  parse_crl data_bytes =
      if ltb (length data_bytes) 24
      then outside
      else parse_marked data_bytes (find_mark begin_mark data_bytes) (find_mark end_mark data_bytes)

  unfoldable pub download_crl : (Bytes → Option Bytes) → Bytes → Download Crl
  unfolding parse_crl
  download_crl get_from_uri uri = elim (get_from_uri uri) [
    | none ↦ result none
    | some data_bytes ↦ parse_crl data_bytes
  ]
