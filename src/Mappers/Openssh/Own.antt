-- ===== src/Mappers/Openssh/Own.antt =====
-- A certificate and the line of its own key: `openssh_mapper_match_keys` of mappers/openssh_mapper.c on a
-- file with the entry that `cert_info_sshpuk` of common/cert_info.c gives.
use pam_pkcs.Base.{
  ℕ, ◌+◌, ◌*◌, ◌/◌, ◌≤◌, ◌≡◌, ◌≢◌, inl, inr, refl, sym, ap, subst, ◌∙◌, arith, true, List, [], ◌∷◌,
  ◌++◌, map, none, some, append_assoc, Option-cases, Bool-cases, Option, Bytes, All, All-append,
  ltb, length,
}
use pam_pkcs.Base.Int.{pos}
use pam_pkcs.Base.Cstr.{codes, starts_with, strchr}
use pam_pkcs.Base64.{base64_encode, base64_decode, bin_of, at, encode_groups}
use pam_pkcs.Base64.Signs.{IsSign, IsSign-ne, encode_groups-IsSign}
use pam_pkcs.Base64.Roundtrip.{base64_decode-base64_encode}
use pam_pkcs.CertInfo.{outside, entry}
use pam_pkcs.CertInfo.Sshpuk.{
  Bignums, rsa, compose_line, rsa_blob, blob_entry, cert_info_sshpuk, first_mail,
}
use pam_pkcs.Mappers.Openssh.{
  LineKey, undefined, no_key, key, skip_blanks, key_from_text, ssh2_line_to_key, key_at, line_key,
  read_keys, match_rsa, match_keys, openssh_mapper_match_keys, blob_text, add_key,
}
use pam_pkcs.Mappers.Openssh.Lines.{IsLine, ended, file_of, fgets_lines-file_of, until_nul-ended}
use pam_pkcs.Mappers.Openssh.Blob.{IsBignums, rsa_blob-IsByte, key_from_blob-rsa_blob}

-- What stands behind the text in the line and its end.
abbrev mail_part : Option Bytes → Bytes
mail_part none = 10 ∷ []
mail_part (some mail) = 32 ∷ (mail ++ 10 ∷ [])

no_end : (c : ℕ) → IsSign c → (c ≢ 32) × (c ≢ 13) × (c ≢ 10)
unfolding bin_of at
no_end c p = (
  IsSign-ne c 32 p (omega arith) (λ e. absurd (omega (arith, e))),
  IsSign-ne c 13 p (omega arith) (λ e. absurd (omega (arith, e))),
  IsSign-ne c 10 p (omega arith) (λ e. absurd (omega (arith, e))),
)

blob_text-append :
    (text : Bytes) (mail : Option Bytes)
    → All IsSign text
    → blob_text (text ++ mail_part mail) ≡ text
unfolding blob_text
blob_text-append [] none h = refl
blob_text-append [] (some mail) h = refl
blob_text-append (c ∷ text) mail (p, h) = ground (arith, no_end c p, blob_text-append text mail h)

entry-injective : (s t : Option Bytes) → entry s ≡ entry t → s ≡ t
entry-injective s t e = cc

-- What is known where an entry is given.
parts :
    (blob line : Bytes) (mails : Option (List Bytes))
    → blob_entry (codes "ssh-rsa") blob mails ≡ entry (some line)
    → (length blob ≤ 8192)
      × ((capacity : ℕ) × (text : Bytes) × (base64_encode (some blob) true (some capacity)
            ≡ some text)
          × (line ≡ compose_line (codes "ssh-rsa") text (first_mail mails)))
unfolding blob_entry
parts blob line mails e =
    let data_len = 1 + 4 * ((2 + length blob) / 3) in
    elim (Bool-cases (ltb 8192 (length blob))) [
      | inl f ↦ absurd (let k : outside ≡ entry (some line) = sym (rw f refl) ∙ e in cc)
      | inr f ↦ elim (Option-cases (base64_encode (some blob) true (some data_len))) [
        | inl g ↦ absurd (ground (arith, e, f, g))
        | inr (text, g) ↦ (ground (arith, f), (data_len, text, g, ground (arith, e, f, g)))
      ]
    ]

encoded :
    (blob text : Bytes) (capacity : ℕ)
    → base64_encode (some blob) true (some capacity) ≡ some text
    → All IsSign text
unfolding base64_encode
encoded blob text capacity e =
    let k : text ≡ encode_groups blob = ground (arith, e) in
    subst (λ t. All IsSign t) (sym k) (encode_groups-IsSign blob)

abbrev line_of : Bytes → Option Bytes → Bytes
line_of text mail = compose_line (codes "ssh-rsa") text mail

-- The line up to its end, for both forms.
line_end :
    (text : Bytes) (mail : Option Bytes)
    → ended (line_of text mail) ≡ codes "ssh-rsa" ++ 32 ∷ (text ++ mail_part mail)
unfolding compose_line
line_end text none = refl
line_end text (some mail) =
    ap (λ t. codes "ssh-rsa" ++ 32 ∷ t) (append_assoc text (32 ∷ mail) (10 ∷ []))

module _ {Bn : Type 0} (lib : Bignums Bn) where
  key_at-line :
      (text : Bytes) (mail : Option Bytes)
      → All IsSign text
      → key_at lib (skip_blanks (codes "ssh-rsa" ++ 32 ∷ (text ++ mail_part mail)))
        ≡ key_from_text lib (base64_decode text 8192)
  unfolding key_at skip_blanks starts_with ssh2_line_to_key strchr
  key_at-line text mail h =
      ap (λ t. key_from_text lib (base64_decode t 8192)) (blob_text-append text mail h)

  -- A line that fits into the buffer and is read without going outside of it.
  abbrev pub IsSound : Bytes → Type 0
  IsSound line = IsLine line × (line_key lib (ended line) ≢ undefined)

  All-IsLine : (lines : List Bytes) → All IsSound lines → All IsLine lines
  All-IsLine [] h = _
  All-IsLine (line ∷ lines) ((w, p), h) = (w, All-IsLine lines h)

  add_key-some :
      (k : LineKey Bn) (keys : List (Bn × Bn))
      → k ≢ undefined
      → (keys' : List (Bn × Bn)) × (add_key lib k (some keys) ≡ some keys')
  unfolding add_key
  add_key-some undefined keys h = absurd (h refl)
  add_key-some no_key keys h = (keys, refl)
  add_key-some (key n e) keys h = ((n, e) ∷ keys, refl)

  -- A further key in front does not hide a match.
  add_key-match :
      (authrsa : Bn × Bn) (k : LineKey Bn) (keys : List (Bn × Bn))
      → k ≢ undefined
      → match_rsa lib authrsa keys ≡ pos 1
      → (keys' : List (Bn × Bn)) × (add_key lib k (some keys) ≡ some keys')
        × (match_rsa lib authrsa keys' ≡ pos 1)
  unfolding add_key match_rsa
  add_key-match authrsa undefined keys h m = absurd (h refl)
  add_key-match authrsa no_key keys h m = (keys, refl, m)
  add_key-match authrsa (key n e) keys h m = ((n, e) ∷ keys, refl, ground (arith, m))

  read_keys-lines :
      (lines : List Bytes)
      → All IsSound lines
      → (keys : List (Bn × Bn)) × (read_keys lib (map ended lines) ≡ some keys)
  unfolding read_keys
  read_keys-lines [] h = ([], refl)
  read_keys-lines (line ∷ lines) ((w, p), h) =
      let (keys, r) = read_keys-lines lines h in
      rw r (add_key-some (line_key lib (ended line)) keys p)

  match_rsa-own :
      (n e n' e' : Bn) (line : Bytes) (before after : List Bytes)
      → lib.bn_eq n' n ≡ true
      → lib.bn_eq e' e ≡ true
      → line_key lib (ended line) ≡ key n' e'
      → All IsSound before
      → All IsSound after
      → (keys : List (Bn × Bn)) × (read_keys lib (map ended (before ++ line ∷ after)) ≡ some keys)
        × (match_rsa lib (n, e) keys ≡ pos 1)
  unfolding read_keys match_rsa add_key
  match_rsa-own n e n' e' line [] after p q k hb ha =
      let (keys, r) = read_keys-lines after ha in ((n', e') ∷ keys, rw (k, r) refl, rw (q, p) refl)
  match_rsa-own n e n' e' line (l ∷ before) after p q k ((w, hl), hb) ha =
      let (keys, r, m) = match_rsa-own n e n' e' line before after p q k hb ha in
      rw r (add_key-match (n, e) (line_key lib (ended l)) keys hl m)

  module _ (laws : IsBignums lib) where
    line_key-line :
        (n e : Bn) (mails : Option (List Bytes)) (line : Bytes)
        → cert_info_sshpuk lib (some (rsa (some (n, e)))) mails ≡ entry (some line)
        → IsLine line
        → line_key lib (ended line) ≡ key (lib.bin2bn (lib.bn2bin n)) (lib.bin2bn (lib.bn2bin e))
    unfolding line_key cert_info_sshpuk key_from_text
    line_key-line n e mails line h w =
        let blob = rsa_blob lib n e in
        let mail = first_mail mails in
        let (size, (capacity, text, written, l)) = parts blob line mails h in
        ap (λ t. key_at lib (skip_blanks t)) (until_nul-ended line w.chars)
        ∙ ap (λ t. key_at lib (skip_blanks t)) (ap ended l ∙ line_end text mail)
        ∙ key_at-line text mail (encoded blob text capacity written)
        ∙ ap (λ t. key_from_text lib t)
            (base64_decode-base64_encode blob capacity 8192 text (rsa_blob-IsByte lib laws n e)
              written size)
        ∙ key_from_blob-rsa_blob lib laws n e size

    -- `openssh_mapper_match_keys` finds the RSA key of a certificate in a file with the line that
    -- `cert_info_sshpuk` has given for the certificate, where each line fits into the buffer, with no null
    -- in it, and no other line is read outside of its text.
    pub openssh_mapper_match_keys-cert_info_sshpuk :
        (n e : Bn) (mails : Option (List Bytes)) (line : Bytes) (before after : List Bytes)
        → cert_info_sshpuk lib (some (rsa (some (n, e)))) mails ≡ entry (some line)
        → IsLine line
        → All IsSound before
        → All IsSound after
        → openssh_mapper_match_keys lib
            (some (rsa (some (n, e))))
            (some (file_of (before ++ line ∷ after)))
          ≡ some (pos 1)
    unfolding openssh_mapper_match_keys match_keys
    openssh_mapper_match_keys-cert_info_sshpuk n e mails line before after h w hb ha =
        let lines : All IsLine (before ++ line ∷ after) =
          All-append IsLine before (line ∷ after) (All-IsLine before hb) (w, All-IsLine after ha) in
        let (keys, r, m) =
          match_rsa-own n e (lib.bin2bn (lib.bn2bin n)) (lib.bin2bn (lib.bn2bin e)) line before
            after (laws.back n) (laws.back e) (line_key-line n e mails line h w) hb ha in
        rw (openssh_mapper_match_keys, fgets_lines-file_of (before ++ line ∷ after) lines, r)
          (ap (λ z. some z) m)
