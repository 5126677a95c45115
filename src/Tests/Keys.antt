-- ===== src/Tests/Keys.antt =====
-- Runs of what is read from a certificate, and of the mapper that compares it with a file of keys.
use pam_pkcs.Base.{
  ℕ, ◌%◌, ◌≡◌, ◌≢◌, ◌∙◌, refl, sym, subst, arith, inl, inr, Bool, true, false, List, [], ◌∷◌, ◌++◌,
  map, none, some, Bytes, All, if◌then◌else◌, ◌==◌, Bool-cases,
}
use pam_pkcs.Base.Int.{pos}
use pam_pkcs.Base.Cstr.{codes, streq, streq_refl, starts_with}
use pam_pkcs.Base64.{base64_encode, code_of}
use pam_pkcs.Base64.Roundtrip.{IsByte}
use pam_pkcs.CertInfo.{
  GeneralName, gen_email, gen_other, entry, no_entries, cert_info_size, cert_info_serial_number,
}
use pam_pkcs.Strings.Hex.{bin2hex}
use pam_pkcs.CertInfo.Serial.{cert_info_serial_number_lem}
use pam_pkcs.CertInfo.Sshpuk.{Bignums, rsa, cert_info_sshpuk}
use pam_pkcs.CertInfo.Request.{Cert, Objects, info, cert_email, cert_info}
use pam_pkcs.CertInfo.Request.Stale.{cert_info-stale}
use pam_pkcs.Mappers.Openssh.{openssh_mapper_match_keys, line_key, no_key}
use pam_pkcs.Mappers.Openssh.Blob.{IsBignums}
use pam_pkcs.Mappers.Openssh.Lines.{IsLine, file_of}
use pam_pkcs.Mappers.Openssh.Own.{openssh_mapper_match_keys-cert_info_sshpuk}
use pam_pkcs.Mappers.Openssh.Finder.{line_key-ssh1}

abbrev low : ℕ → ℕ
low c = c % 256

-- Numbers by their bytes, the highest first.
abbrev norm : Bytes → Bytes
norm [] = []
norm (c ∷ s) = if c % 256 == 0 then norm s else map low (c ∷ s)

abbrev numbers : Bignums Bytes
numbers = record {
  bn2bin = norm;
  bin2bn = norm;
  bn_is_zero = λ b. streq (norm b) [];
  bn_eq = λ a b. streq (norm a) (norm b);
}

low-IsByte : (s : Bytes) → All IsByte (map low s)
low-IsByte [] = _
low-IsByte (c ∷ s) = (omega arith, low-IsByte s)

norm-IsByte : (s : Bytes) → All IsByte (norm s)
norm-IsByte [] = _
norm-IsByte (c ∷ s) = elim (Bool-cases (c % 256 == 0)) [
  | inl e ↦ rw e (norm-IsByte s)
  | inr e ↦ rw e (low-IsByte (c ∷ s))
]

low_twice : (s : Bytes) → map low (map low s) ≡ map low s
low_twice [] = refl
low_twice (c ∷ s) = ground (arith, low_twice s)

norm_twice : (s : Bytes) → norm (norm s) ≡ norm s
norm_twice [] = refl
norm_twice (c ∷ s) = ground (arith, norm_twice s, low_twice s)

is_empty : (s : Bytes) → streq s [] ≡ true → s ≡ []
unfolding streq
is_empty [] e = refl
is_empty (c ∷ s) e = absurd (ground (arith, e))

numbers-IsBignums : IsBignums numbers
numbers-IsBignums = record {
  zero_bytes = λ b e. is_empty (norm b) e;
  bytes = norm-IsByte;
  leading = λ s. refl;
  back = λ b.
      subst (λ s. streq s (norm b) ≡ true) (sym (norm_twice (norm b) ∙ norm_twice b))
        (streq_refl (norm b));
}

-- The line of a key with n 0x81 and e 3.
abbrev own_line : Bytes
own_line = codes "ssh-rsa AAAAB3NzaC1yc2EAAAABAwAAAAIAgQ== a@b.c"

own_entry :
    cert_info_sshpuk numbers (some (rsa (some (0x81 ∷ [], 3 ∷ [])))) (some (codes "a@b.c" ∷ []))
    ≡ entry (some own_line)
unfolding cert_info_sshpuk streq base64_encode code_of
own_entry = refl

is_char : ℕ → Bool
is_char c = if c == 0 then false else if c == 10 then false else true

all_chars : Bytes → Bool
all_chars [] = true
all_chars (c ∷ s) = if is_char c then all_chars s else false

all_chars_lem : (s : Bytes) → all_chars s ≡ true → All (λ c. (c ≢ 0) × (c ≢ 10)) s
unfolding all_chars is_char
all_chars_lem [] e = _
all_chars_lem (c ∷ s) e = (ground (arith, e), all_chars_lem s (ground (arith, e)))

abbrev comment : Bytes
comment = codes "# keys"

abbrev old_line : Bytes
old_line = codes "1024 35 99 x"

comment_key : line_key numbers (comment ++ 10 ∷ []) ≡ no_key
unfolding line_key starts_with
comment_key = refl

-- A digit in front: the line is of SSH version 1.
old_key : line_key numbers (old_line ++ 10 ∷ []) ≡ no_key
unfolding line_key
old_key = refl

own_line-IsLine : IsLine own_line
unfolding all_chars is_char
own_line-IsLine = record { chars = all_chars_lem own_line refl; fits = omega arith }

comment-IsLine : IsLine comment
unfolding all_chars is_char
comment-IsLine = record { chars = all_chars_lem comment refl; fits = omega arith }

old_line-IsLine : IsLine old_line
unfolding all_chars is_char
old_line-IsLine = record { chars = all_chars_lem old_line refl; fits = omega arith }

openssh_mapper_match_keys-cert_info_sshpuk_example :
    openssh_mapper_match_keys numbers
      (some (rsa (some (0x81 ∷ [], 3 ∷ []))))
      (some (file_of (comment ∷ own_line ∷ old_line ∷ [])))
    ≡ some (pos 1)
openssh_mapper_match_keys-cert_info_sshpuk_example =
    openssh_mapper_match_keys-cert_info_sshpuk numbers numbers-IsBignums (0x81 ∷ []) (3 ∷ [])
      (some (codes "a@b.c" ∷ [])) own_line (comment ∷ []) (old_line ∷ []) own_entry own_line-IsLine
      ((comment-IsLine, λ e. cc comment_key), _) ((old_line-IsLine, λ e. cc old_key), _)

-- A line of SSH version 1 with a modulus that does not begin with 0 is never the key of a certificate.
line_key-ssh1_example : line_key numbers old_line ≡ no_key
line_key-ssh1_example = line_key-ssh1 numbers b'1' (codes "024 35 99 x") (omega arith) (omega arith)

cert_info_serial_number_lem_example :
    cert_info_serial_number (some (2 ∷ 1 ∷ 0x4A ∷ [])) ≡ entry (some (codes "4A"))
unfolding bin2hex
cert_info_serial_number_lem_example =
    cert_info_serial_number_lem 2 1 (0x4A ∷ []) (λ e. absurd (ground (arith, e)))

abbrev cert_with : List GeneralName → Cert Bytes
cert_with names = record {
  subject = none;
  issuer = none;
  alt_names = some names;
  pubkey = none;
  serial = none;
  pem_pubkey = none;
  pem_cert = none;
  digest = λ algorithm. [];
  key_alg = codes "rsaEncryption";
}

abbrev objects : Objects
objects = record { ms_upn = codes "upn"; krb5 = none; is_digest = λ s. false }

abbrev two_mails : List GeneralName
two_mails = gen_email (codes "a@x") ∷ gen_other ∷ gen_email (codes "b@x") ∷ []

abbrev one_mail : List GeneralName
one_mail = gen_email (codes "c@x") ∷ []

cert_info-stale_example :
    (cert_info numbers objects
      (some (cert_with one_mail))
      cert_email
      none
      (cert_info numbers objects
        (some (cert_with two_mails))
        cert_email
        none
        (no_entries cert_info_size)).1).0
    ≡ info (some (codes "c@x" ∷ codes "b@x" ∷ []))
cert_info-stale_example =
    cert_info-stale numbers objects (cert_with two_mails) (cert_with one_mail) two_mails one_mail
      refl refl (omega arith) (omega arith) (omega arith)
