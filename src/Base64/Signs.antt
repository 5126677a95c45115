-- ===== src/Base64/Signs.antt =====
-- The characters that `base64_encode` of common/base64.c writes.
use pam_pkcs.Base.{
  ℕ, ◌<◌, ◌≤◌, ◌≡◌, ◌≢◌, ◌⊎◌, refl, inl, inr, sym, ap, ◌∙◌, arith, [], ◌∷◌, Bytes, All,
}
use pam_pkcs.Base64.{encode_groups, code_of, bin_of}
use pam_pkcs.Base64.Groups.{is_code_mod}

-- A character of the alphabet, or of the padding.
abbrev pub IsSign : ℕ → Type 0
IsSign c = (bin_of c < 64) ⊎ (c ≡ b'=')

-- A character that is none of these.
pub IsSign-ne : (c k : ℕ) → IsSign c → 64 ≤ bin_of k → k ≢ b'=' → c ≢ k
IsSign-ne c k (inl h) l n e =
    let f : bin_of c ≡ bin_of k = ap bin_of e in absurd (omega (arith, h, l, f))
IsSign-ne c k (inr h) l n e = n (sym e ∙ h)

code_of-IsSign : (x : ℕ) → IsSign (code_of x)
code_of-IsSign x = inl (omega (arith, is_code_mod x))

pub encode_groups-IsSign : (bytes : Bytes) → All IsSign (encode_groups bytes)
unfolding encode_groups
encode_groups-IsSign [] = _
encode_groups-IsSign (a ∷ []) = (code_of-IsSign _, (code_of-IsSign _, (inr refl, (inr refl, _))))
encode_groups-IsSign (a ∷ b ∷ []) =
    (code_of-IsSign _, (code_of-IsSign _, (code_of-IsSign _, (inr refl, _))))
encode_groups-IsSign (a ∷ b ∷ c ∷ rest) = (
  code_of-IsSign _,
  (code_of-IsSign _, (code_of-IsSign _, (code_of-IsSign _, encode_groups-IsSign rest))),
)
