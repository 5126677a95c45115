-- ===== src/Strings/Hex.antt =====
-- common/strings.c: bin2hex, hex2bin and trim, with the memory that they write. A result of none is an
-- access outside the text or outside the memory that was allocated.
pub mod Access
use pam_pkcs.Base.{
  ℕ, zero, suc, ◌+◌, ◌/◌, ◌%◌, Bool, true, false, List, [], ◌∷◌, Option, none, some, Bytes,
  if◌then◌else◌, ◌==◌, ltb, length,
}
use pam_pkcs.Base.Cstr.{is_space}

-- A digit of "%X".
abbrev hex_digit : ℕ → ℕ
hex_digit d = if ltb d 10 then 48 + d else 55 + d

-- "%02X:" for each byte, without the last colon.
unfoldable pub bin2hex : Bytes → Bytes
bin2hex [] = []
bin2hex (b ∷ []) = hex_digit (b / 16) ∷ hex_digit (b % 16) ∷ []
bin2hex (b ∷ c ∷ bytes) = hex_digit (b / 16) ∷ hex_digit (b % 16) ∷ b':' ∷ bin2hex (c ∷ bytes)

-- A leading colon is skipped.
unfoldable pub strip_colon : Bytes → Bytes
strip_colon [] = []
strip_colon (c ∷ s) = if c == b':' then s else c ∷ s

-- `sscanf` with "%02x" gives a number or nothing; `room` elements are left. The text is read three
-- characters at a time, and a step over its end reads on behind it.
module _ (sscanf : Bytes → Option ℕ) where
  write_byte : Option ℕ → ℕ → Option ℕ
  write_byte none room = some 0
  write_byte (some c) zero = none
  write_byte (some c) (suc room) = some (c % 256)

  pred : ℕ → ℕ
  pred zero = zero
  pred (suc n) = n

  unfoldable pub read_hex : ℕ → Bytes → Option Bytes
  unfolding write_byte pred
  read_hex room [] = some []
  read_hex room (x ∷ []) = none
  read_hex room (x ∷ y ∷ []) = none
  read_hex room (x ∷ y ∷ z ∷ s) = elim (write_byte (sscanf (x ∷ y ∷ z ∷ s)) room) [
    | none ↦ none
    | some b ↦ elim (read_hex (pred room) s) [ none ↦ none | some bytes ↦ some (b ∷ bytes) ]
  ]

  -- The bytes that are written, in an array of `(1+strlen(hexstr))/3` elements.
  unfoldable pub hex2bin : Bytes → Option Bytes
  unfolding read_hex strip_colon
  hex2bin hexstr = read_hex ((1 + length hexstr) / 3) (strip_colon hexstr)

-- The loop of `trim`: blanks become one space, and none at the start. The result is what is written,
-- and whether the last was a blank, or nothing.
unfoldable pub squeeze : Bool → Bytes → Bytes × Bool
squeeze space [] = ([], space)
squeeze space (c ∷ s) =
    let kept = squeeze false s in
    let blank = squeeze true s in
    if is_space c then (if space then blank else (32 ∷ blank.0, blank.1)) else (c ∷ kept.0, kept.1)

drop_last : Bytes → Option Bytes
drop_last [] = none
drop_last (c ∷ []) = some []
drop_last (c ∷ d ∷ s) = elim (drop_last (d ∷ s)) [ none ↦ none | some t ↦ some (c ∷ t) ]

-- The terminator is written in the place of the last blank or behind the text, in `strlen(str)` bytes.
end_trim : ℕ → Bytes × Bool → Option Bytes
unfolding drop_last
end_trim size (out, true) = drop_last out
end_trim size (out, false) = if ltb (length out) size then some out else none

unfoldable pub trim : Bytes → Option Bytes
unfolding squeeze end_trim
trim str = end_trim (length str) (squeeze true str)
