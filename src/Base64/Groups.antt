-- ===== src/Base64/Groups.antt =====
-- A group of four characters that `base64_encode` writes, as `from_base64` of common/base64.c reads it.
use pam_pkcs.Base.{
  ℕ, zero, suc, ◌+◌, ◌-◌, ◌*◌, ◌/◌, ◌%◌, ◌^◌, ◌<◌, ◌≡◌, refl, ap, ◌∙◌, arith, Bool, true, false,
  ◌&&◌, ◌∷◌, some, Bytes, if◌then◌else◌, ltb, leb, ◌==◌,
}
use pam_pkcs.Base64.{at, bin_of, alphabet, code_of, from_base64}

-- Whether a test holds of all numbers under a limit.
holds_under : (ℕ → Bool) → ℕ → Bool
holds_under test zero = true
holds_under test (suc limit) =
    let others = holds_under test limit in if test limit then others else false

holds_under_each :
    (test : ℕ → Bool) (limit v : ℕ) → v < limit → holds_under test limit ≡ true → test v ≡ true
unfolding holds_under
holds_under_each test zero v below holds = absurd (omega (arith, below))
holds_under_each test (suc limit) v below holds =
    ground (arith, holds_under_each test limit v, below, holds)

-- Every character of the alphabet but the last is found in the other table, and is no NUL.
digit_is_found : ℕ → Bool
digit_is_found d = bin_of (code_of d) == d && (ltb (code_of d) 128 && ltb 0 (code_of d))

alphabet_is_found : holds_under digit_is_found 64 ≡ true
unfolding holds_under digit_is_found code_of bin_of at
alphabet_is_found = refl

is_code : (d : ℕ) → d < 64 → (bin_of (code_of d) ≡ d) × (code_of d < 128) × (0 < code_of d)
unfolding digit_is_found
is_code d below = ground (arith, holds_under_each digit_is_found 64 d below alphabet_is_found)

code_of_mod : (x : ℕ) → code_of x ≡ code_of (x % 64)
unfolding code_of
code_of_mod x = ap (λ n. at alphabet n) {x = x % 64} {y = x % 64 % 64} (omega arith)

pub is_code_mod : (x : ℕ) → (bin_of (code_of x) ≡ x % 64) × (code_of x < 128) × (0 < code_of x)
is_code_mod x = rw (code_of_mod x) (is_code (x % 64) (omega arith))

IsNoMark : ℕ → ℕ → Type 0
IsNoMark k b =
    (leb 128 k ≡ false) × ((b == 0xC0) ≡ false) × ((b == 0xD0) ≡ false) × (ltb 0x3F b ≡ false)

no_mark : (k b : ℕ) → k < 128 → b < 64 → IsNoMark k b
unfolding IsNoMark
no_mark k b h l = (ground arith, ground arith, ground arith, ground arith)

from_base64_char :
    (s res k b : ℕ) (input : Bytes)
    → bin_of k ≡ b
    → IsNoMark k b
    → from_base64 (suc s) res (k ∷ input) ≡ from_base64 s (res + b * 64 ^ s) input
unfolding from_base64 IsNoMark
from_base64_char s res k b input e (m1, m2, m3, m4) = rw (e, m1, m2, m3, m4) refl

-- One character of the alphabet.
from_base64_code :
    (s res v : ℕ) (input : Bytes)
    → from_base64 (suc s) res (code_of v ∷ input) ≡ from_base64 s (res + v % 64 * 64 ^ s) input
from_base64_code s res v input =
    let (t, l, p) = is_code_mod v in
    from_base64_char s res (code_of v) (v % 64) input t
      (no_mark (code_of v) (v % 64) l (omega arith))

from_base64_pad :
    (s res : ℕ) (input : Bytes)
    → from_base64 (suc s) res (b'=' ∷ input) ≡ some ((3 - s) * 6 / 8, res, b'=' ∷ input)
unfolding from_base64 bin_of at
from_base64_pad s res input = refl

-- The characters for one, two and three bytes.
pub read_one :
    (a : ℕ) (input : Bytes)
    → a < 256
    → from_base64 4 0 (code_of (a / 4) ∷ code_of (a % 4 * 16) ∷ b'=' ∷ input)
      ≡ some (1, a * 65536, b'=' ∷ input)
read_one a input h =
    from_base64_code 3 0 (a / 4) _
    ∙ from_base64_code 2 _ (a % 4 * 16) _
    ∙ from_base64_pad 1 _ input
    ∙ ap (λ n. some (1, n, b'=' ∷ input)) (omega arith)

pub read_two :
    (a b : ℕ) (input : Bytes)
    → a < 256
    → b < 256
    → from_base64 4 0
        (code_of (a / 4) ∷ code_of (a % 4 * 16 + b / 16) ∷ code_of (b % 16 * 4) ∷ b'=' ∷ input)
      ≡ some (2, a * 65536 + b * 256, b'=' ∷ input)
read_two a b input h g =
    from_base64_code 3 0 (a / 4) _
    ∙ from_base64_code 2 _ (a % 4 * 16 + b / 16) _
    ∙ from_base64_code 1 _ (b % 16 * 4) _
    ∙ from_base64_pad 0 _ input
    ∙ ap (λ n. some (2, n, b'=' ∷ input)) (omega arith)

pub read_three :
    (a b c : ℕ) (input : Bytes)
    → a < 256
    → b < 256
    → c < 256
    → from_base64 4 0 (
        code_of (a / 4)
        ∷ code_of (a % 4 * 16 + b / 16)
        ∷ code_of (b % 16 * 4 + c / 64)
        ∷ code_of c
        ∷ input)
      ≡ some (3, a * 65536 + b * 256 + c, input)
unfolding from_base64
read_three a b c input h g k =
    from_base64_code 3 0 (a / 4) _
    ∙ from_base64_code 2 _ (a % 4 * 16 + b / 16) _
    ∙ from_base64_code 1 _ (b % 16 * 4 + c / 64) _
    ∙ from_base64_code 0 _ c input
    ∙ ap (λ n. some (3, n, input)) (omega arith)
