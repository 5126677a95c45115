-- ===== src/Strings.antt =====
-- common/strings.c: the string helpers of the program. Allocations succeed.
pub mod Split
pub mod Hex
use pam_pkcs.Base.{
  ℕ, zero, suc, ◌≡◌, ◌==◌, List, map, Bool, true, false, ◌&&◌, [], ◌∷◌, ◌++◌, Option, none, some,
  Bytes, if◌then◌else◌, All, ltb, length, arith,
}
use pam_pkcs.Base.Cstr.{is_space, to_lower, to_upper, strchr}

-- Every byte is white space.
unfoldable pub all_space : Bytes → Bool
unfolding is_space
all_space [] = true
all_space (c ∷ s) = is_space c && all_space s

-- A null pointer is `none`.
unfoldable pub is_empty_str : Option Bytes → Bool
unfolding all_space
is_empty_str none = true
is_empty_str (some s) = all_space s

unfoldable pub clone_str : Bytes → Bytes
clone_str str = str

unfoldable pub toupper_str : Bytes → Bytes
toupper_str str = map to_upper str

unfoldable pub tolower_str : Bytes → Bytes
tolower_str str = map to_lower str

-- `split` into one item more than `n`: the items that are set, the others are null pointers.
unfoldable pub split_more : ℕ → ℕ → Bytes → List Bytes
split_more sep zero pt = pt ∷ []
split_more sep (suc n) pt = elim (strchr pt sep) [
  | none ↦ pt ∷ []
  | some (item, rest) ↦ item ∷ split_more sep n rest
]

-- `nelems` is 1 at least: the last item is stored in any case.
unfoldable pub split : Bytes → ℕ → ℕ → Option (List Bytes)
unfolding split_more
split str sep zero = none
split str sep (suc n) = some (split_more sep n str)

abbrev cons : ℕ → Option Bytes → Option Bytes
cons c none = none
cons c (some s) = some (c ∷ s)

-- `strndup` of common/strndup.c, on the memory from the string on: none is the null pointer.
unfoldable pub strndup : Bytes → ℕ → Option Bytes
strndup s zero = none
strndup [] (suc size) = none
strndup (c ∷ s) (suc size) = let rest = strndup s size in if c == 0 then some [] else cons c rest

-- A string that is shorter than `size` is copied; of one that is not, nothing is.
strndup_lem :
    (s rest : Bytes) (size : ℕ)
    → All (λ c. (c == 0) ≡ false) s
    → strndup (s ++ 0 ∷ rest) size ≡ (if ltb (length s) size then some s else none)
unfolding strndup
strndup_lem [] rest zero h = ground arith
strndup_lem [] rest (suc size) h = ground arith
strndup_lem (c ∷ s) rest zero h = ground arith
strndup_lem (c ∷ s) rest (suc size) (z, h) = ground (arith, strndup_lem s rest size h)
