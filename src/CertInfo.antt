-- ===== src/CertInfo.antt =====
-- common/cert_info.c, in the build with OpenSSL: what `cert_info` reads from a certificate. What OpenSSL
-- gives for the certificate is the record `Cert`; a null array is none.
pub mod Entries
pub mod Request
pub mod Serial
pub mod Sshpuk
use pam_pkcs.Base.{
  ℕ, zero, suc, ◌+◌, ◌-◌, ◌%◌, Bool, true, false, List, [], ◌∷◌, Option, none, some, Bytes,
  if◌then◌else◌, ◌==◌, leb, ltb, length, drop, take,
}
use pam_pkcs.Base.Cstr.{codes, streq}
use pam_pkcs.Strings.Hex.{bin2hex}

-- The attributes of a name that are asked for.
pub data Nid : Type 0 where
  common_name x500_unique_identifier user_id : Nid

-- A name: the index of the next attribute after one, none for -1; the text of an attribute as UTF-8, none
-- where one of the three calls for it fails; and the text in one line, of a size at most.
pub record Name : Type 0 where
  pub get_index_by_nid : Nid → Option ℕ → Option ℕ
  pub utf8_at : ℕ → Option Bytes
  pub oneline : ℕ → Bytes

-- A name of a type of its own: its type, what ASN1_STRING_to_UTF8 makes of it, and its text if it is a
-- UTF8String.
pub record OtherName : Type 0 where
  pub type_id : Bytes
  pub to_utf8 : Option Bytes
  pub utf8string : Option Bytes

-- An alternative name of the subject.
pub data GeneralName : Type 0 where
  gen_email : Bytes → GeneralName
  gen_othername : OtherName → GeneralName
  gen_other gen_null : GeneralName

abbrev pub cert_info_size : ℕ
cert_info_size = 16

abbrev pub cert_info_max_entries : ℕ
cert_info_max_entries = 15

-- The loop over the attributes: `slots` entries may still be added.
unfoldable pub collect : Name → Nid → ℕ → Option ℕ → List Bytes
collect name nid zero lastpos = []
collect name nid (suc slots) none = []
collect name nid (suc slots) (some lastpos) =
    let rest = collect name nid slots (name.get_index_by_nid nid (some lastpos)) in
    elim (name.utf8_at lastpos) [ none ↦ [] | some txt ↦ txt ∷ rest ]

collect_from : Name → Nid → Option ℕ → Option (List Bytes)
unfolding collect
collect_from name nid none = none
collect_from name nid (some lastpos) = some (collect name nid cert_info_max_entries (some lastpos))

unfoldable pub cert_info_cn : Option Name → Option (List Bytes)
unfolding collect_from
cert_info_cn none = none
cert_info_cn (some name) = collect_from name common_name (name.get_index_by_nid common_name none)

-- The loop looks for the first type of attribute, also where none was found and the second is listed.
unfoldable pub cert_info_uid : Option Name → Option (List Bytes)
unfolding collect_from
cert_info_uid none = none
cert_info_uid (some name) = elim (name.get_index_by_nid x500_unique_identifier none) [
  | some lastpos ↦ collect_from name x500_unique_identifier (some lastpos)
  | none ↦ elim (name.get_index_by_nid user_id none) [
    | none ↦ none
    | some lastpos ↦ collect_from name x500_unique_identifier (some lastpos)
  ]
]

unfoldable pub cert_info_subject : Option Name → Option (List Bytes)
cert_info_subject none = none
cert_info_subject (some name) = some (name.oneline 256 ∷ [])

unfoldable pub cert_info_issuer : Option Name → Option (List Bytes)
cert_info_issuer none = none
cert_info_issuer (some name) = some (name.oneline 256 ∷ [])

-- An array of texts, null for what was never written.
abbrev pub Entries : Type 0
Entries = List (Option Bytes)

abbrev pub no_entries : ℕ → Entries
no_entries zero = []
no_entries (suc n) = none ∷ no_entries n

-- The text of a name that is asked for.
abbrev pub email_of : GeneralName → Option Bytes
email_of (gen_email text) = some text
email_of _ = none

abbrev pub upn_of : Bytes → GeneralName → Option Bytes
upn_of ms_upn (gen_othername other) = if streq other.type_id ms_upn then other.utf8string else none
upn_of ms_upn _ = none

abbrev pub kpn_of : Bytes → GeneralName → Option Bytes
kpn_of krb5 (gen_othername other) = if streq other.type_id krb5 then other.to_utf8 else none
kpn_of krb5 _ = none

-- The loop over the alternative names: the entries from the place of the next on, of which the last is
-- kept for the null, and whether one was added.
unfoldable pub fill : (GeneralName → Option Bytes) → List GeneralName → Entries → Entries × Bool
fill text_of [] entries = (entries, false)
fill text_of (name ∷ gens) [] = ([], false)
fill text_of (name ∷ gens) (e ∷ []) = (e ∷ [], false)
fill text_of (name ∷ gens) (e ∷ f ∷ entries) =
    let skipped = fill text_of gens (e ∷ f ∷ entries) in
    let rest = fill text_of gens (f ∷ entries) in
    elim (text_of name) [ none ↦ skipped | some text ↦ (some text ∷ rest.0, true) ]

-- The texts before the first null, which are what a caller sees.
unfoldable pub until_null : Entries → List Bytes
until_null [] = []
until_null (none ∷ entries) = []
until_null (some text ∷ entries) = text ∷ until_null entries

shown : Entries × Bool → Option (List Bytes)
unfolding until_null
shown (entries, added) = if added then some (until_null entries) else none

-- The array is static, and is not cleared: what earlier calls have left is still there.
unfoldable pub cert_info_email : Option (List GeneralName) → Entries → Option (List Bytes) × Entries
unfolding fill shown
cert_info_email none entries = (none, entries)
cert_info_email (some gens) entries =
    let filled = fill email_of gens entries in (shown filled, filled.0)

unfoldable pub cert_info_upn : Bytes → Option (List GeneralName) → Option (List Bytes)
unfolding fill shown
cert_info_upn ms_upn none = none
cert_info_upn ms_upn (some gens) = shown (fill (upn_of ms_upn) gens (no_entries cert_info_size))

-- The object of the Kerberos name may be missing.
unfoldable pub cert_info_kpn : Option Bytes → Option (List GeneralName) → Option (List Bytes)
unfolding fill shown
cert_info_kpn krb5 none = none
cert_info_kpn none (some gens) = none
cert_info_kpn (some krb5) (some gens) = shown (fill (kpn_of krb5) gens (no_entries cert_info_size))

-- A reading outside the buffer that was allocated, or the entry.
pub data Entry : Type 0 where
  outside : Entry
  entry : Option Bytes → Entry

-- The bytes of an INTEGER in DER, from a place on; the last byte that is read is in the buffer or not.
part : Bytes → ℕ → ℕ → Entry
unfolding bin2hex
part buffer start len =
    if leb (start + len) (length buffer)
    then entry (some (bin2hex (take len (drop start buffer))))
    else outside

-- The first byte is the tag. Where the second has its top bit, the others say how many bytes of length
-- follow, and `len -= 2 - n` is `len - 2 + n`.
unfoldable pub serial_of : Bytes → Entry
unfolding part
serial_of [] = outside
serial_of (tag ∷ []) = outside
serial_of (tag ∷ size ∷ rest) =
    let len = length (tag ∷ size ∷ rest) in
    if leb 128 size
    then part (tag ∷ size ∷ rest) (2 + size % 128) (len - 2 + size % 128)
    else part (tag ∷ size ∷ rest) 2 (len - 2)

-- What i2d_ASN1_INTEGER gives, none for a failure.
unfoldable pub cert_info_serial_number : Option Bytes → Entry
unfolding serial_of
cert_info_serial_number none = entry none
cert_info_serial_number (some buffer) = serial_of buffer
