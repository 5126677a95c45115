-- ===== src/Strings/Hex/Access.antt =====
-- Where hex2bin and trim of common/strings.c stay in their memory.
use pam_pkcs.Base.{
  ℕ, zero, suc, ◌+◌, ◌/◌, ◌%◌, ◌≤◌, ◌≡◌, ◌↔◌, refl, ap, ◌∙◌, arith, Bool, true, false, [], ◌∷◌,
  Option, none, some, Bytes, All, if◌then◌else◌, ltb, length, is_some,
}
use pam_pkcs.Base.Cstr.{is_space}
use pam_pkcs.Strings.Hex.{strip_colon, write_byte, pred, read_hex, hex2bin, squeeze, end_trim, trim}

length-strip_colon : (s : Bytes) → length (strip_colon s) ≤ length s
unfolding strip_colon
length-strip_colon [] = omega arith
length-strip_colon (c ∷ s) = ground arith

module _ (sscanf : Bytes → Option ℕ) where
  write_byte_room : (o : Option ℕ) (room : ℕ) → is_some (write_byte sscanf o (suc room)) ≡ true
  unfolding write_byte
  write_byte_room none room = refl
  write_byte_room (some c) room = refl

  read_hex_iff :
      (room : ℕ) (s : Bytes)
      → length s / 3 ≤ room
      → (is_some (read_hex sscanf room s) ≡ true) ↔ (length s % 3 ≡ 0)
  unfolding read_hex pred
  read_hex_iff room [] l = ground arith
  read_hex_iff room (x ∷ []) l = ground arith
  read_hex_iff room (x ∷ y ∷ []) l = ground arith
  read_hex_iff zero (x ∷ y ∷ z ∷ s) l = absurd (omega (arith, l))
  read_hex_iff (suc room) (x ∷ y ∷ z ∷ s) l =
      ground (
        arith,
        write_byte_room (sscanf (x ∷ y ∷ z ∷ s)) room,
        read_hex_iff room s (omega (arith, l)),
      )

  -- `hex2bin` stays inside its text and its array just where the length of the text, without a leading
  -- colon, is a multiple of three.
  pub hex2bin_iff :
      (hexstr : Bytes)
      → (is_some (hex2bin sscanf hexstr) ≡ true) ↔ (length (strip_colon hexstr) % 3 ≡ 0)
  unfolding hex2bin
  hex2bin_iff hexstr =
      read_hex_iff ((1 + length hexstr) / 3) (strip_colon hexstr)
        (omega (arith, length-strip_colon hexstr))

squeeze_words :
    (c : ℕ) (s : Bytes) (space : Bool)
    → All (λ x. is_space x ≡ false) (c ∷ s)
    → squeeze space (c ∷ s) ≡ (c ∷ s, false)
unfolding squeeze
squeeze_words c [] space (n, h) = rw n refl
squeeze_words c (d ∷ s) space (n, h) = rw n (ap (λ p. (c ∷ p.0, p.1)) (squeeze_words d s false h))

-- `trim` writes outside its memory for every text without white space, the empty one among them.
pub trim_words : (str : Bytes) → All (λ x. is_space x ≡ false) str → trim str ≡ none
unfolding trim end_trim
trim_words [] h = refl
trim_words (c ∷ s) h =
    ap (end_trim (length (c ∷ s))) (squeeze_words c s true h) ∙ no_room (length (c ∷ s)) (c ∷ s)
  where
    no_room : (n : ℕ) (t : Bytes) → (if ltb n n then some t else none) ≡ none
    no_room n t = ground arith
