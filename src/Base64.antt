-- ===== src/Base64.antt =====
-- common/base64.c: the conversion of bytes to and from base64. A C string is the list of its bytes
-- before the terminator; `size_t` has 64 bits, and `char` is signed.
pub mod Ends
pub mod Groups
pub mod Roundtrip
pub mod Signs
use pam_pkcs.Base.{
  ℕ, zero, suc, ◌+◌, ◌-◌, ◌*◌, ◌/◌, ◌%◌, ◌^◌, Bool, true, false, List, [], ◌∷◌, ◌++◌, Option, none,
  some, Bytes, if◌then◌else◌, ltb, leb, ◌==◌, length,
}
use pam_pkcs.Base.Cstr.{codes}

abbrev pub alphabet : Bytes
alphabet = codes "ABCDEFGHIJKLMNOPQRSTUVWXYZabcdefghijklmnopqrstuvwxyz0123456789+/="

-- The element of an index that is within the table.
unfoldable pub at : Bytes → ℕ → ℕ
at [] n = 0
at (x ∷ l) zero = x
at (x ∷ l) (suc n) = at l n

abbrev pub bin_table : Bytes
bin_table =
    0xFF ∷ 0xFF ∷ 0xFF ∷ 0xFF ∷ 0xFF ∷ 0xFF ∷ 0xFF ∷ 0xFF ∷ 0xFF ∷ 0xE0 ∷ 0xD0 ∷ 0xFF ∷ 0xFF ∷ 0xD0
    ∷ 0xFF ∷ 0xFF ∷ 0xFF ∷ 0xFF ∷ 0xFF ∷ 0xFF ∷ 0xFF ∷ 0xFF ∷ 0xFF ∷ 0xFF ∷ 0xFF ∷ 0xFF ∷ 0xFF
    ∷ 0xFF ∷ 0xFF ∷ 0xFF ∷ 0xFF ∷ 0xFF ∷ 0xE0 ∷ 0xFF ∷ 0xFF ∷ 0xFF ∷ 0xFF ∷ 0xFF ∷ 0xFF ∷ 0xFF
    ∷ 0xFF ∷ 0xFF ∷ 0xFF ∷ 0x3E ∷ 0xFF ∷ 0xF2 ∷ 0xFF ∷ 0x3F ∷ 0x34 ∷ 0x35 ∷ 0x36 ∷ 0x37 ∷ 0x38
    ∷ 0x39 ∷ 0x3A ∷ 0x3B ∷ 0x3C ∷ 0x3D ∷ 0xFF ∷ 0xFF ∷ 0xFF ∷ 0xC0 ∷ 0xFF ∷ 0xFF ∷ 0xFF ∷ 0x00
    ∷ 0x01 ∷ 0x02 ∷ 0x03 ∷ 0x04 ∷ 0x05 ∷ 0x06 ∷ 0x07 ∷ 0x08 ∷ 0x09 ∷ 0x0A ∷ 0x0B ∷ 0x0C ∷ 0x0D
    ∷ 0x0E ∷ 0x0F ∷ 0x10 ∷ 0x11 ∷ 0x12 ∷ 0x13 ∷ 0x14 ∷ 0x15 ∷ 0x16 ∷ 0x17 ∷ 0x18 ∷ 0x19 ∷ 0xFF
    ∷ 0xFF ∷ 0xFF ∷ 0xFF ∷ 0xFF ∷ 0xFF ∷ 0x1A ∷ 0x1B ∷ 0x1C ∷ 0x1D ∷ 0x1E ∷ 0x1F ∷ 0x20 ∷ 0x21
    ∷ 0x22 ∷ 0x23 ∷ 0x24 ∷ 0x25 ∷ 0x26 ∷ 0x27 ∷ 0x28 ∷ 0x29 ∷ 0x2A ∷ 0x2B ∷ 0x2C ∷ 0x2D ∷ 0x2E
    ∷ 0x2F ∷ 0x30 ∷ 0x31 ∷ 0x32 ∷ 0x33 ∷ 0xFF ∷ 0xFF ∷ 0xFF ∷ 0xFF ∷ 0xFF ∷ []

unfoldable pub bin_of : ℕ → ℕ
unfolding at
bin_of k = at bin_table k

-- `codes[n & 0x3F]`
unfoldable pub code_of : ℕ → ℕ
unfolding at
code_of n = at alphabet (n % 64)

-- The loop over whole groups of three bytes, and the padding.
unfoldable pub encode_groups : Bytes → Bytes
encode_groups [] = []
encode_groups (a ∷ []) = code_of (a / 4) ∷ code_of (a % 4 * 16) ∷ b'=' ∷ b'=' ∷ []
encode_groups (a ∷ b ∷ []) =
    code_of (a / 4) ∷ code_of (a % 4 * 16 + b / 16) ∷ code_of (b % 16 * 4) ∷ b'=' ∷ []
encode_groups (a ∷ b ∷ c ∷ rest) =
    code_of (a / 4)
    ∷ code_of (a % 4 * 16 + b / 16)
    ∷ code_of (b % 16 * 4 + c / 64)
    ∷ code_of c
    ∷ encode_groups rest

-- The range of `size_t`.
abbrev pub size_range : ℕ
size_range = 0x10000000000000000

-- The size of the text, without its terminator.
unfoldable pub encoded_size : ℕ → ℕ
encoded_size len = 4 * ((len + 2) % size_range / 3) % size_range

-- The text, none for a result of -1. A null `in`, `out` or `outlen` is none; `out` has the bytes that
-- `*outlen` says.
unfoldable pub base64_encode : Option Bytes → Bool → Option ℕ → Option Bytes
unfolding encoded_size encode_groups
base64_encode none out outlen = none
base64_encode (some input) false outlen = none
base64_encode (some input) true none = none
base64_encode (some input) true (some outlen) =
    if ltb outlen ((encoded_size (length input) + 1) % size_range)
    then none
    else some (encode_groups input)

-- `from_base64` with its loop: `s` characters are still to be read, and the value so far is `res`. Its
-- result is what it returns, the value and the text after the skipped characters; none for -1.
unfoldable pub from_base64 : ℕ → ℕ → Bytes → Option (ℕ × ℕ × Bytes)
unfolding bin_of
from_base64 zero res input = some (3, res, input)
from_base64 (suc s) res [] = if s == 3 then some (0, res, []) else none
from_base64 (suc s) res (k ∷ input) =
    let b = bin_of k in
    let (s', res') = if b == 0xD0 then (suc s, res) else (s, res + b * 64 ^ s) in
    let rest = from_base64 s' res' input in
    if leb 128 k
    then none
    else if b == 0xC0
    then some ((3 - s) * 6 / 8, res, k ∷ input)
    else if b == 0xD0
    then rest
    else if ltb 0x3F b
    then none
    else rest

-- The first bytes of the three of the value, as many as are to be stored.
unfoldable pub store : ℕ → Bytes → ℕ → Option (Bytes × ℕ)
store zero bytes outlen = some ([], outlen)
store (suc r) [] outlen = some ([], outlen)
store (suc r) (x ∷ bytes) zero = none
store (suc r) (x ∷ bytes) (suc outlen) = elim (store r bytes outlen) [
  | none ↦ none
  | some (stored, left) ↦ some (x ∷ stored, left)
]

-- The loop of `base64_decode` after a group of `r` bytes is stored: `next` is the rest of the loop.
continue_after :
    ℕ
    → Option (Bytes × ℕ)
    → Bytes
    → Bytes
    → (Bytes → Bytes → ℕ → Option (Option Bytes))
    → Option (Option Bytes)
continue_after r none done input next = some none
continue_after r (some (stored, left)) done [] next = some (some (done ++ stored))
continue_after r (some (stored, left)) done (k ∷ input) next =
    if ltb r 3 then some (some (done ++ stored)) else next (done ++ stored) (k ∷ input) left

-- What the loop does with the result of `from_base64`; the bytes so far are `done`.
decode_group :
    Bytes
    → ℕ
    → Option (ℕ × ℕ × Bytes)
    → (Bytes → Bytes → ℕ → Option (Option Bytes))
    → Option (Option Bytes)
unfolding store continue_after
decode_group done outlen none next = some none
decode_group done outlen (some (zero, i, input)) next = some (some done)
decode_group done outlen (some (suc r, i, input)) next =
    let bytes = i / 65536 % 256 ∷ i / 256 % 256 ∷ i % 256 ∷ [] in
    continue_after (suc r) (store (suc r) bytes outlen) done input next

unfoldable pub decode_groups : ℕ → Bytes → Bytes → ℕ → Option (Option Bytes)
unfolding decode_group from_base64
decode_groups zero done input outlen = none
decode_groups (suc fuel) done input outlen =
    decode_group done outlen (from_base64 4 0 input) (decode_groups fuel)

-- The bytes that are stored, none for -1. A round of the loop that is followed by another reads four
-- characters at least, so that the length of the text is fuel enough.
unfoldable pub base64_decode : Bytes → ℕ → Option (Option Bytes)
unfolding decode_groups
base64_decode input outlen = decode_groups (suc (length input)) [] input outlen
