-- ===== src/CertVfy/Download/Pem.antt =====
-- `download_crl` of common/cert_vfy.c on a CRL in PEM form.
use pam_pkcs.Base.{
  ℕ, suc, ◌+◌, ◌-◌, ◌%◌, ◌≤◌, ◌≡◌, ◌≢◌, refl, sym, ap, ◌∙◌, arith, true, false, [], ◌∷◌, ◌++◌,
  Option, some, Bytes, All, ltb, length, drop, take, length-append, append_assoc,
}
use pam_pkcs.Base.Cstr.{starts_with}
use pam_pkcs.Base64.{encode_groups, code_of, bin_of, at}
use pam_pkcs.Base64.Groups.{is_code_mod}
use pam_pkcs.Base64.Roundtrip.{IsByte, base64_decode-line, length-encode_groups}
use pam_pkcs.CertVfy.Download.{
  begin_mark, end_mark, find_mark, until_null, pem_text, result, parse_decoded, parse_marked,
  parse_crl, download_crl,
}

-- The CRL in PEM form, with its base64 in one line.
abbrev pub pem : Bytes → Bytes
pem text = begin_mark ++ 10 ∷ (text ++ 10 ∷ end_mark)

-- A character that is no null and no dash.
abbrev IsText : ℕ → Type 0
IsText c = (c ≢ 0) × (c ≢ b'-')

find_end :
    (text : Bytes)
    → All IsText text
    → find_mark end_mark (text ++ 10 ∷ end_mark) ≡ some (length text + 1)
unfolding find_mark starts_with
find_end [] h = refl
find_end (c ∷ text) (n, h) = ground (arith, n.1, find_end text h)

find_begin : (rest : Bytes) → find_mark begin_mark (begin_mark ++ rest) ≡ some 0
unfolding find_mark starts_with
find_begin rest = refl

find_end_pem :
    (text : Bytes) → All IsText text → find_mark end_mark (pem text) ≡ some (25 + (length text + 1))
unfolding find_mark starts_with
find_end_pem text h = rw (find_end text h) (ap some (omega arith))

until_null-append :
    (text rest : Bytes) → All IsText text → until_null (text ++ 10 ∷ 0 ∷ rest) ≡ text ++ 10 ∷ []
unfolding until_null
until_null-append [] rest h = refl
until_null-append (c ∷ text) rest (n, h) = ground (arith, n.0, until_null-append text rest h)

take-append : (text rest : Bytes) → take (length text + 1) (text ++ 10 ∷ rest) ≡ text ++ 10 ∷ []
take-append [] rest = refl
take-append (c ∷ text) rest = ground (arith, take-append text rest)

code_of-IsText : (x : ℕ) → IsText (code_of x)
unfolding bin_of at
code_of-IsText x =
    let (found, below, above) = is_code_mod x in
    (
      λ e. absurd (omega (arith, e, above)),
      λ e. let f : bin_of b'-' ≡ x % 64 = ap bin_of (sym e) ∙ found in absurd (omega (arith, f)),
    )

mark-IsText : IsText b'='
mark-IsText = (λ e. absurd (omega (arith, e)), λ e. absurd (omega (arith, e)))

encode_groups-IsText : (bytes : Bytes) → All IsText (encode_groups bytes)
unfolding encode_groups
encode_groups-IsText [] = _
encode_groups-IsText (a ∷ []) =
    (code_of-IsText _, (code_of-IsText _, (mark-IsText, (mark-IsText, _))))
encode_groups-IsText (a ∷ b ∷ []) =
    (code_of-IsText _, (code_of-IsText _, (code_of-IsText _, (mark-IsText, _))))
encode_groups-IsText (a ∷ b ∷ c ∷ rest) = (
  code_of-IsText _,
  (code_of-IsText _, (code_of-IsText _, (code_of-IsText _, encode_groups-IsText rest))),
)

take_behind :
    (mark rest : Bytes) (n : ℕ) → take (length mark + n) (mark ++ rest) ≡ mark ++ take n rest
take_behind [] rest n = ap (λ m. take m rest) {x = 0 + n} {y = n} (omega arith)
take_behind (c ∷ mark) rest n =
    let e : length (c ∷ mark) + n ≡ suc (length mark + n) = omega arith in
    rw e (ap (λ t. c ∷ t) (take_behind mark rest n))

take-pem :
    (text : Bytes) → take (25 + (length text + 1)) (pem text) ≡ begin_mark ++ 10 ∷ (text ++ 10 ∷ [])
take-pem text =
    take_behind (begin_mark ++ 10 ∷ []) (text ++ 10 ∷ end_mark) (length text + 1)
    ∙ ap (λ t. begin_mark ++ 10 ∷ t) (take-append text end_mark)

pem_text-pem :
    (text : Bytes)
    → All IsText text
    → pem_text (pem text) 0 (25 + (length text + 1)) ≡ 10 ∷ (text ++ 10 ∷ [])
unfolding pem_text until_null
pem_text-pem text h =
    rw
      (
        take-pem text,
        append_assoc text (10 ∷ []) (0 ∷ drop (25 + (length text + 1) + 1) (pem text)),
      )
      (ap (λ t. 10 ∷ t) (until_null-append text (drop (25 + (length text + 1) + 1) (pem text)) h))

parse_marked-pem :
    {Crl : Type 0} (d2i_crl : Bytes → ℕ → Option Crl) (c : ℕ) (der : Bytes)
    → All IsByte (c ∷ der)
    → let text = encode_groups (c ∷ der) in
      parse_marked d2i_crl (pem text) (some 0) (some (25 + (length text + 1)))
      ≡ result (d2i_crl (c ∷ der) (length (c ∷ der)))
unfolding parse_marked parse_decoded
parse_marked-pem d2i_crl c der h =
    let text = encode_groups (c ∷ der) in
    let is_after : ltb 0 (25 + (length text + 1)) ≡ true = ground arith in
    let fits : length (c ∷ der) ≤ 25 + (length text + 1) - 0 + 1 =
      omega (arith, length-encode_groups (c ∷ der)) in
    rw (is_after, pem_text-pem text (encode_groups-IsText (c ∷ der)))
      (rw (base64_decode-line (c ∷ der) (25 + (length text + 1) - 0 + 1) h fits) refl)

parse_crl-marks :
    {Crl : Type 0} (d2i_crl : Bytes → ℕ → Option Crl) (text : Bytes)
    → All IsText text
    → parse_crl d2i_crl (pem text)
      ≡ parse_marked d2i_crl (pem text) (some 0) (some (25 + (length text + 1)))
unfolding parse_crl
parse_crl-marks d2i_crl text h =
    let size : ltb (length (pem text)) 24 ≡ false =
      ground (arith, length-append begin_mark (10 ∷ (text ++ 10 ∷ end_mark))) in
    rw (size, find_begin (10 ∷ (text ++ 10 ∷ end_mark)), find_end_pem text h) refl

-- `download_crl` gives OpenSSL the bytes of the CRL and their number, where the data that is fetched is the
-- CRL in PEM form, with the base64 of these bytes, one at least, in one line.
pub download_crl-pem :
    {Crl : Type 0} (d2i_crl : Bytes → ℕ → Option Crl) (get_from_uri : Bytes → Option Bytes)
    (uri : Bytes) (c : ℕ) (der : Bytes)
    → All IsByte (c ∷ der)
    → get_from_uri uri ≡ some (pem (encode_groups (c ∷ der)))
    → download_crl d2i_crl get_from_uri uri ≡ result (d2i_crl (c ∷ der) (length (c ∷ der)))
unfolding download_crl
download_crl-pem d2i_crl get_from_uri uri c der h e =
    rw (download_crl, e)
      (parse_crl-marks d2i_crl (encode_groups (c ∷ der)) (encode_groups-IsText (c ∷ der))
        ∙ parse_marked-pem d2i_crl c der h)
