-- ===== src/Mappers/Openssh.antt =====
-- mappers/openssh_mapper.c, in the build with OpenSSL. A result of none, or `undefined`, is a reading
-- outside of a text or buffer, or of memory that was never written.
pub mod Blob
pub mod Lines
pub mod Own
pub mod Finder
use pam_pkcs.Base.{
  ℕ, zero, suc, ◌+◌, ◌-◌, ◌*◌, Bool, true, false, not, ◌&&◌, ◌||◌, List, [], ◌∷◌, ◌++◌, Option,
  none, some, Bytes, if◌then◌else◌, ◌==◌, leb, ltb, length, drop, take,
}
use pam_pkcs.Base.Int.{ℤ, pos, negsuc}
use pam_pkcs.Base.Cstr.{codes, starts_with, strchr}
use pam_pkcs.Base64.{base64_decode}
use pam_pkcs.Strings.{is_empty_str}
use pam_pkcs.Mappers.Homes.{Passwd, Found, find_first}
use pam_pkcs.CertInfo.Sshpuk.{Bignums, Pkey, rsa, dsa, other_key}

abbrev pub openssh_line_max : ℕ
openssh_line_max = 8192

pub data LineKey (Bn : Type 0) : Type 0 where
  undefined no_key : LineKey Bn
  key : Bn → Bn → LineKey Bn

abbrev pub is_blank : ℕ → Bool
is_blank c = c == 32 || c == 9

unfoldable pub skip_blanks : Bytes → Bytes
skip_blanks [] = []
skip_blanks (c ∷ s) = if is_blank c then skip_blanks s else c ∷ s

-- The loops over the digits take the digit 0 alone.
unfoldable pub skip_digits : Bytes → Bytes
skip_digits [] = []
skip_digits (c ∷ s) = if leb b'0' c && leb c b'0' then skip_digits s else c ∷ s

-- Where digits and a blank stand, what comes after these and further blanks.
unfoldable pub after_digits : Bytes → Option Bytes
unfolding skip_digits skip_blanks
after_digits s = elim (skip_digits s) [
  | [] ↦ none
  | c ∷ rest ↦ if is_blank c then some (skip_blanks rest) else none
]

-- Whether digits and a blank or the end of the line stand.
unfoldable pub ends_digits : Bytes → Bool
unfolding skip_digits
ends_digits s = elim (skip_digits s) [ [] ↦ true | c ∷ rest ↦ is_blank c || (c == 10 || c == 13) ]

-- A line of three numbers goes to BN_dec2bn with two pointers that were never set.
unfoldable pub ssh1_line_to_key : {Bn : Type 0} → Bytes → LineKey Bn
unfolding after_digits ends_digits
ssh1_line_to_key b = elim (after_digits b) [
  | none ↦ no_key
  | some e ↦ elim (after_digits e) [
    | none ↦ no_key
    | some m ↦ if ends_digits m then undefined else no_key
  ]
]

-- What stands before a space or the end of the line.
unfoldable pub blob_text : Bytes → Bytes
blob_text [] = []
blob_text (c ∷ s) = if c == 32 || (c == 13 || c == 10) then [] else c ∷ blob_text s

-- Four bytes as an `int`, that is not negative, and what follows.
unfoldable pub read_int : Bytes → Option (ℕ × Bytes)
read_int (a ∷ b ∷ c ∷ d ∷ rest) =
    if ltb a 128 then some (a * 16777216 + b * 65536 + c * 256 + d, rest) else none
read_int _ = none

-- A number of bytes and what follows.
unfoldable pub read_bytes : Option (ℕ × Bytes) → Option (Bytes × Bytes)
read_bytes none = none
read_bytes (some (len, s)) = if leb len (length s) then some (take len s, drop len s) else none

-- `strncmp(s, t, strlen(t)) == 0` in a buffer.
unfoldable pub buffer_starts_with : Bytes → Bytes → Option Bool
buffer_starts_with s [] = some true
buffer_starts_with [] (y ∷ t) = none
buffer_starts_with (x ∷ s) (y ∷ t) = if x == y then buffer_starts_with s t else some false

-- The string in an array: what stands before the first null.
unfoldable pub until_nul : Bytes → Bytes
until_nul [] = []
until_nul (c ∷ s) = if c == 0 then [] else c ∷ until_nul s

-- The lines that `fgets` gives, of `limit` characters at most; `room` may still be added to the first.
push : ℕ → List Bytes → List Bytes
push c [] = (c ∷ []) ∷ []
push c (line ∷ lines) = (c ∷ line) ∷ lines

unfoldable pub fgets_lines : ℕ → ℕ → Bytes → List Bytes
unfolding push
fgets_lines limit room [] = []
fgets_lines limit room (c ∷ s) =
    let next = fgets_lines limit limit s in
    let same = fgets_lines limit (room - 1) s in
    if c == 10 || leb room 1 then (c ∷ []) ∷ next else push c same

module _ {Bn : Type 0} (lib : Bignums Bn) where
  -- The two numbers of the key: RSA_set0_key is given n and e.
  numbers : Option (Bytes × Bytes) → LineKey Bn
  unfolding read_int read_bytes
  numbers none = undefined
  numbers (some (e, s)) = elim (read_bytes (read_int s)) [
    | none ↦ undefined
    | some (n, rest) ↦ key (lib.bin2bn n) (lib.bin2bn e)
  ]

  -- The type that stands behind its length, and the numbers behind it.
  key_from_type : ℕ → Bytes → Option Bool → LineKey Bn
  unfolding numbers
  key_from_type len s none = undefined
  key_from_type len s (some false) = no_key
  key_from_type len s (some true) =
      if leb len (length s) then numbers (read_bytes (read_int (drop len s))) else undefined

  unfoldable pub key_from_blob : Bytes → LineKey Bn
  unfolding key_from_type buffer_starts_with
  key_from_blob decoded = elim (read_int decoded) [
    | none ↦ undefined
    | some (len, s) ↦ key_from_type len s (buffer_starts_with s (codes "ssh-rsa"))
  ]

  key_from_text : Option (Option Bytes) → LineKey Bn
  unfolding key_from_blob
  key_from_text none = undefined
  key_from_text (some none) = no_key
  key_from_text (some (some decoded)) = key_from_blob decoded

  -- With no space the text is looked for behind the end of the line.
  unfoldable pub ssh2_line_to_key : Bytes → LineKey Bn
  unfolding key_from_text blob_text
  ssh2_line_to_key line = elim (strchr line 32) [
    | none ↦ undefined
    | some (type, b) ↦ key_from_text (base64_decode (blob_text b) openssh_line_max)
  ]

  key_at : Bytes → LineKey Bn
  unfolding ssh1_line_to_key ssh2_line_to_key
  key_at [] = no_key
  key_at (c ∷ cp) =
      if leb b'0' c && leb c b'9'
      then ssh1_line_to_key (c ∷ cp)
      else if starts_with (c ∷ cp) (codes "ssh-rsa")
      then ssh2_line_to_key (c ∷ cp)
      else no_key

  -- A round of the loop over the lines.
  unfoldable pub line_key : Bytes → LineKey Bn
  unfolding key_at until_nul skip_blanks
  line_key line = key_at (skip_blanks (until_nul line))

  add_key : LineKey Bn → Option (List (Bn × Bn)) → Option (List (Bn × Bn))
  add_key undefined keys = none
  add_key no_key keys = keys
  add_key (key n e) none = none
  add_key (key n e) (some keys) = some ((n, e) ∷ keys)

  unfoldable pub read_keys : List Bytes → Option (List (Bn × Bn))
  unfolding add_key line_key
  read_keys [] = some []
  read_keys (line ∷ lines) = add_key (line_key line) (read_keys lines)

  unfoldable pub match_rsa : Bn × Bn → List (Bn × Bn) → ℤ
  match_rsa authrsa [] = pos 0
  match_rsa authrsa ((n, e) ∷ keys) =
      let rest = match_rsa authrsa keys in
      if not (lib.bn_eq e authrsa.1)
      then rest
      else if not (lib.bn_eq n authrsa.0)
      then rest
      else pos 1

  unfoldable pub match_keys : Pkey Bn → List (Bn × Bn) → ℤ
  unfolding match_rsa
  match_keys (rsa (some authrsa)) keys = match_rsa authrsa keys
  match_keys (rsa none) keys = pos 0
  match_keys (dsa k) keys = pos 0
  match_keys other_key keys = pos 0

  -- The key of the certificate and the file, none for a null pointer.
  unfoldable pub openssh_mapper_match_keys : Option (Pkey Bn) → Option Bytes → Option ℤ
  unfolding match_keys read_keys fgets_lines
  openssh_mapper_match_keys none file = some (pos 0)
  openssh_mapper_match_keys (some authkey) none = some (pos 0)
  openssh_mapper_match_keys (some authkey) (some file) =
      elim (read_keys (fgets_lines (openssh_line_max - 1) (openssh_line_max - 1) file)) [
        | none ↦ none
        | some keys ↦ some (match_keys authkey keys)
      ]

-- The files, getpwnam, the entries that getpwent gives in order, and PATH_MAX.
pub record Users : Type 0 where
  pub read_file : Bytes → Option Bytes
  pub getpwnam : Bytes → Option Passwd
  pub entries : List Passwd
  pub path_max : ℕ

module _ {Bn : Type 0} (lib : Bignums Bn) (users : Users) where
  unfoldable pub match_home : Option (Pkey Bn) → Bytes → Option ℤ
  unfolding openssh_mapper_match_keys
  match_home x509 dir =
      let filename = dir ++ codes "/.ssh/authorized_keys" in
      if ltb (length filename) users.path_max
      then openssh_mapper_match_keys lib x509 (users.read_file filename)
      else none

  match_passwd : Option (Pkey Bn) → Option Passwd → Option ℤ
  unfolding match_home
  match_passwd x509 none = some (negsuc 0)
  match_passwd x509 (some pw) = elim pw.pw_dir [
    | none ↦ some (negsuc 0)
    | some dir ↦ if is_empty_str (some dir) then some (negsuc 0) else match_home x509 dir
  ]

  unfoldable pub openssh_mapper_match_user : Option (Pkey Bn) → Bytes → Option ℤ
  unfolding match_passwd
  openssh_mapper_match_user x509 user = match_passwd x509 (users.getpwnam user)

  -- An entry without a home directory is passed over like one that does not match.
  unfoldable pub match_entry : Option (Pkey Bn) → Passwd → Option ℤ
  unfolding match_home
  match_entry x509 pw = elim pw.pw_dir [
    | none ↦ some (pos 0)
    | some dir ↦ if is_empty_str (some dir) then some (pos 0) else match_home x509 dir
  ]

  unfoldable pub openssh_mapper_find_user : Option (Pkey Bn) → Found
  unfolding find_first match_entry
  openssh_mapper_find_user x509 = find_first (match_entry x509) users.entries
