-- ===== src/Base/Cstr.antt =====
-- The C library's functions on strings that the program uses, in the "C" locale. A string is
-- the list of its bytes before the terminator.
use Prim.Native.Char.{code}
use Prim.Native.Nat.{ℕ, ◌+◌, ◌-◌}
use Prim.Native.String.{String}
use mathlib.Core.Bool.{Bool, true, false, ◌&&◌, ◌||◌}
use mathlib.Core.List.{[], ◌∷◌, map}
use mathlib.Core.Logic.{◌↔◌}
use mathlib.Core.Option.{Option, none, some}
use mathlib.Core.Path.{◌≡◌, refl}
use native.Mathlib.Omega.{arith}
use pam_pkcs.Base.Lists.{Bytes}
use pam_pkcs.Base.Tests.{leb, ◌==◌, if◌then◌else◌}

-- The bytes of an ASCII literal.
abbrev pub codes : String → Bytes
codes String.[] = []
codes (String.◌∷◌ c s) = code c ∷ codes s

-- space, \t, \n, \v, \f, \r
unfoldable pub is_space : ℕ → Bool
is_space c = c == 32 || (leb 9 c && leb c 13)

unfoldable pub to_lower : ℕ → ℕ
to_lower c = if leb b'A' c && leb c b'Z' then c + 32 else c

unfoldable pub to_upper : ℕ → ℕ
to_upper c = if leb b'a' c && leb c b'z' then c - 32 else c

-- `!strcmp(s, t)`
unfoldable pub streq : Bytes → Bytes → Bool
streq [] [] = true
streq (x ∷ s) (y ∷ t) = x == y && streq s t
streq _ _ = false

-- `!strcasecmp(s, t)`
unfoldable pub strcaseeq : Bytes → Bytes → Bool
strcaseeq s t = streq (map to_lower s) (map to_lower t)

-- `!strncmp(s, t, strlen(t))`: `t` is a prefix of `s`.
unfoldable pub starts_with : Bytes → Bytes → Bool
starts_with s [] = true
starts_with [] (y ∷ t) = false
starts_with (x ∷ s) (y ∷ t) = x == y && starts_with s t

-- What stands before and after the first `c`.
unfoldable pub strchr : Bytes → ℕ → Option (Bytes × Bytes)
strchr [] c = none
strchr (x ∷ s) c =
    if x == c
    then some ([], s)
    else elim (strchr s c) [ none ↦ none | some (p, r) ↦ some (x ∷ p, r) ]

-- What stands before the first occurrence of `t`, and the text from there on.
unfoldable pub strstr : Bytes → Bytes → Option (Bytes × Bytes)
unfolding starts_with
strstr [] t = if starts_with [] t then some ([], []) else none
strstr (x ∷ s) t =
    if starts_with (x ∷ s) t
    then some ([], x ∷ s)
    else elim (strstr s t) [ none ↦ none | some (p, r) ↦ some (x ∷ p, r) ]

pub streq_iff : (s t : Bytes) → (streq s t ≡ true) ↔ (s ≡ t)
unfolding streq
streq_iff (x ∷ s) (y ∷ t) = ground (arith, streq_iff s t)
streq_iff _ _ = ground arith

pub streq_refl : (s : Bytes) → streq s s ≡ true
streq_refl s = (streq_iff s s).1 refl
