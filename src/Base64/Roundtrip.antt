-- ===== src/Base64/Roundtrip.antt =====
-- `base64_decode` of common/base64.c on what `base64_encode` writes.
use pam_pkcs.Base.{
  ℕ, zero, suc, ◌+◌, ◌-◌, ◌*◌, ◌/◌, ◌%◌, ◌<◌, ◌≤◌, ◌⊎◌, ◌≡◌, refl, inl, inr, sym, ap, ◌∙◌, arith,
  true, [], ◌∷◌, ◌++◌, none, some, Bytes, All, length, ltb, append_assoc, append-nil, Bool-cases,
  subst, length-append,
}
use pam_pkcs.Base64.{
  from_base64, encode_groups, encoded_size, size_range, base64_encode, store, continue_after,
  decode_group, decode_groups, base64_decode, bin_of, at,
}
use pam_pkcs.Base64.Groups.{read_one, read_two, read_three}

abbrev pub IsByte : ℕ → Type 0
IsByte x = x < 256

decode_one :
    (a fuel left : ℕ) (done s : Bytes)
    → a < 256
    → decode_groups (suc fuel) done (encode_groups (a ∷ []) ++ s) (suc left)
      ≡ some (some (done ++ a ∷ []))
unfolding decode_groups encode_groups decode_group store continue_after
decode_one a fuel left done s h =
    rw (read_one a (b'=' ∷ s) h)
      (ap (λ n. some (some (done ++ n ∷ []))) {x = a * 65536 / 65536 % 256} {y = a} (omega arith))

three_bytes :
    (a b c : ℕ)
    → a < 256
    → b < 256
    → c < 256
    → ((a * 65536 + b * 256 + c) / 65536 % 256 ≡ a)
      × ((a * 65536 + b * 256 + c) / 256 % 256 ≡ b)
      × ((a * 65536 + b * 256 + c) % 256 ≡ c)
three_bytes a b c h g k = (omega arith, omega arith, omega arith)

two_bytes :
    (a b : ℕ)
    → a < 256
    → b < 256
    → ((a * 65536 + b * 256) / 65536 % 256 ≡ a) × ((a * 65536 + b * 256) / 256 % 256 ≡ b)
two_bytes a b h g = (omega arith, omega arith)

decode_two :
    (a b fuel left : ℕ) (done s : Bytes)
    → a < 256
    → b < 256
    → decode_groups (suc fuel) done (encode_groups (a ∷ b ∷ []) ++ s) (suc (suc left))
      ≡ some (some (done ++ a ∷ b ∷ []))
unfolding decode_groups encode_groups decode_group store continue_after
decode_two a b fuel left done s h g =
    rw (read_two a b s h g) (let (e, f) = two_bytes a b h g in rw (e, f) refl)

decode_three :
    (a b c fuel left : ℕ) (done rest s : Bytes)
    → a < 256
    → b < 256
    → c < 256
    → decode_groups (suc fuel) done (encode_groups (a ∷ b ∷ c ∷ rest) ++ s) (suc (suc (suc left)))
      ≡ continue_after 3
          (some (a ∷ b ∷ c ∷ [], left))
          done
          (encode_groups rest ++ s)
          (decode_groups fuel)
unfolding decode_groups encode_groups decode_group store
decode_three a b c fuel left done rest s h g k =
    rw (read_three a b c (encode_groups rest ++ s) h g k)
      (let (e, f, d) = three_bytes a b c h g k in rw (e, f, d) refl)

continue_more :
    (x fuel left : ℕ) (stored done rest s : Bytes)
    → continue_after 3
        (some (stored, left))
        done
        (encode_groups (x ∷ rest) ++ s)
        (decode_groups fuel)
      ≡ decode_groups fuel (done ++ stored) (encode_groups (x ∷ rest) ++ s) left
unfolding continue_after encode_groups
continue_more x fuel left stored done [] s = refl
continue_more x fuel left stored done (y ∷ []) s = refl
continue_more x fuel left stored done (y ∷ z ∷ rest) s = refl

-- A text that has no more bytes.
abbrev IsEnd : Bytes → Type 0
IsEnd s = (fuel left : ℕ) (done : Bytes) → decode_groups (suc fuel) done s left ≡ some (some done)

continue_end :
    (s : Bytes) (fuel left : ℕ) (stored done : Bytes)
    → IsEnd s
    → continue_after 3 (some (stored, left)) done s (decode_groups (suc fuel))
      ≡ some (some (done ++ stored))
unfolding continue_after
continue_end [] fuel left stored done e = refl
continue_end (c ∷ s) fuel left stored done e = e fuel left (done ++ stored)

plus : (n : ℕ) → (1 + n ≡ suc n) × (2 + n ≡ suc (suc n)) × (3 + n ≡ suc (suc (suc n)))
plus n = (omega arith, omega arith, omega arith)

empty-IsEnd : IsEnd []
unfolding decode_groups decode_group from_base64
empty-IsEnd fuel left done = refl

newline-IsEnd : IsEnd (10 ∷ [])
unfolding decode_groups decode_group from_base64 bin_of at
newline-IsEnd fuel left done = refl

decode_groups-newline :
    (fuel left : ℕ) (done s : Bytes)
    → decode_groups (suc fuel) done (10 ∷ s) left ≡ decode_groups (suc fuel) done s left
unfolding decode_groups from_base64 bin_of at
decode_groups-newline fuel left done s = refl

decode_groups-encode_groups :
    (s bytes : Bytes) (fuel left : ℕ) (done : Bytes)
    → IsEnd s
    → All IsByte bytes
    → length bytes < fuel
    → decode_groups fuel done (encode_groups bytes ++ s) (length bytes + left)
      ≡ some (some (done ++ bytes))
unfolding encode_groups
decode_groups-encode_groups s bytes zero left done e h l = absurd (omega (arith, l))
decode_groups-encode_groups s [] (suc fuel) left done e h l =
    e fuel (0 + left) done ∙ ap (λ d. some (some d)) (sym (append-nil done))
decode_groups-encode_groups s (a ∷ []) (suc fuel) left done e (p, h) l =
    rw (plus left).0 (decode_one a fuel left done s p)
decode_groups-encode_groups s (a ∷ b ∷ []) (suc fuel) left done e (p, (q, h)) l =
    rw (plus left).1 (decode_two a b fuel left done s p q)
decode_groups-encode_groups s (a ∷ b ∷ c ∷ []) (suc zero) left done e h l =
    absurd (omega (arith, l))
decode_groups-encode_groups s (a ∷ b ∷ c ∷ []) (suc (suc fuel)) left done e (p, (q, (r, h))) l =
    rw (plus left).2 (
      decode_three a b c (suc fuel) left done [] s p q r
      ∙ continue_end s fuel left (a ∷ b ∷ c ∷ []) done e)
decode_groups-encode_groups s (a ∷ b ∷ c ∷ x ∷ rest) (suc fuel) left done e (p, (q, (r, h))) l =
    let k : length (a ∷ b ∷ c ∷ x ∷ rest) + left ≡ suc (suc (suc (length (x ∷ rest) + left))) =
      omega arith in
    rw k (
      decode_three a b c fuel (length (x ∷ rest) + left) done (x ∷ rest) s p q r
      ∙ continue_more x fuel (length (x ∷ rest) + left) (a ∷ b ∷ c ∷ []) done rest s
      ∙ decode_groups-encode_groups s (x ∷ rest) fuel left (done ++ a ∷ b ∷ c ∷ []) e h
          (omega (arith, l))
      ∙ ap (λ d. some (some d)) (append_assoc done (a ∷ b ∷ c ∷ []) (x ∷ rest)))

pub length-encode_groups :
    (bytes : Bytes) → length (encode_groups bytes) ≡ 4 * ((length bytes + 2) / 3)
unfolding encode_groups
length-encode_groups [] = refl
length-encode_groups (a ∷ []) = refl
length-encode_groups (a ∷ b ∷ []) = refl
length-encode_groups (a ∷ b ∷ c ∷ rest) = omega (arith, length-encode_groups rest)

base64_decode-encode_groups :
    (bytes : Bytes) (outlen : ℕ)
    → All IsByte bytes
    → length bytes ≤ outlen
    → base64_decode (encode_groups bytes) outlen ≡ some (some bytes)
unfolding base64_decode
base64_decode-encode_groups bytes outlen h l =
    let e : outlen ≡ length bytes + (outlen - length bytes) = omega (arith, l) in
    subst (λ t. decode_groups (suc (length (encode_groups bytes))) [] t outlen ≡ some (some bytes))
      (append-nil (encode_groups bytes))
      (rw e (
        decode_groups-encode_groups [] bytes (suc (length (encode_groups bytes)))
          (outlen - length bytes) [] empty-IsEnd h (omega (arith, length-encode_groups bytes))))

-- The line breaks of PEM around the text are passed over.
pub base64_decode-line :
    (bytes : Bytes) (outlen : ℕ)
    → All IsByte bytes
    → length bytes ≤ outlen
    → base64_decode (10 ∷ (encode_groups bytes ++ 10 ∷ [])) outlen ≡ some (some bytes)
unfolding base64_decode
base64_decode-line bytes outlen h l =
    let size = suc (length (encode_groups bytes ++ 10 ∷ [])) in
    let e : outlen ≡ length bytes + (outlen - length bytes) = omega (arith, l) in
    let k : length (encode_groups bytes ++ 10 ∷ []) ≡ length (encode_groups bytes) + 1 =
      length-append (encode_groups bytes) (10 ∷ []) in
    decode_groups-newline size outlen [] (encode_groups bytes ++ 10 ∷ [])
    ∙ rw e (
        decode_groups-encode_groups (10 ∷ []) bytes (suc size) (outlen - length bytes) []
          newline-IsEnd h (omega (arith, k, length-encode_groups bytes)))

encoded :
    (bytes : Bytes) (capacity : ℕ) (text : Bytes)
    → base64_encode (some bytes) true (some capacity) ≡ some text
    → text ≡ encode_groups bytes
unfolding base64_encode
encoded bytes capacity text e = ground (arith, e)

-- `base64_decode` gives back the bytes that `base64_encode` has written as text, if they fit into its
-- buffer.
pub base64_decode-base64_encode :
    (bytes : Bytes) (capacity outlen : ℕ) (text : Bytes)
    → All IsByte bytes
    → base64_encode (some bytes) true (some capacity) ≡ some text
    → length bytes ≤ outlen
    → base64_decode text outlen ≡ some (some bytes)
base64_decode-base64_encode bytes capacity outlen text h e l =
    rw (encoded bytes capacity text e) (base64_decode-encode_groups bytes outlen h l)

encoded_size_lem :
    (len : ℕ)
    → len ≤ 0x4000000000000000
    → (encoded_size len + 1) % size_range ≡ 4 * ((len + 2) / 3) + 1
unfolding encoded_size
encoded_size_lem len l = omega (arith, l)

-- `base64_encode` fails where the buffer has not four characters for each group of three bytes begun and
-- one for the terminator, and else writes so many characters, for up to 2 ^ 62 bytes.
pub base64_encode_bounds :
    (bytes : Bytes) (capacity : ℕ)
    → length bytes ≤ 0x4000000000000000
    → let size = 4 * ((length bytes + 2) / 3) in
      let result = base64_encode (some bytes) true (some capacity) in
      ((capacity < size + 1) × (result ≡ none))
      ⊎ ((size + 1 ≤ capacity) × ((text : Bytes) × (result ≡ some text) × (length text ≡ size)))
unfolding base64_encode
base64_encode_bounds bytes capacity l =
    elim (Bool-cases (ltb capacity ((encoded_size (length bytes) + 1) % size_range))) [
      | inl e ↦ inl (ground (arith, e, encoded_size_lem (length bytes) l), rw e refl)
      | inr e ↦ inr (
        ground (arith, e, encoded_size_lem (length bytes) l),
        (encode_groups bytes, rw e refl, length-encode_groups bytes),
      )
    ]
