-- ===== src/Mappers/Openssh/Lines.antt =====
-- The lines that `openssh_mapper_match_keys` of mappers/openssh_mapper.c reads from a file.
use pam_pkcs.Base.{
  ℕ, ◌+◌, ◌-◌, ◌<◌, ◌≡◌, ◌≢◌, refl, ap, ◌∙◌, arith, List, [], ◌∷◌, ◌++◌, map, Bytes, All, length,
}
use pam_pkcs.Mappers.Openssh.{fgets_lines, until_nul, openssh_line_max}

-- A line of a text, without its end: no null and no newline, and it fits into the buffer with its end.
pub record IsLine (line : Bytes) : Type 0 where
  pub chars : All (λ c. (c ≢ 0) × (c ≢ 10)) line
  pub fits : length line + 1 < openssh_line_max

abbrev pub ended : Bytes → Bytes
ended line = line ++ 10 ∷ []

abbrev pub file_of : List Bytes → Bytes
file_of [] = []
file_of (line ∷ lines) = line ++ 10 ∷ file_of lines

fgets_lines-line :
    (limit room : ℕ) (line rest : Bytes)
    → All (λ c. (c ≢ 0) × (c ≢ 10)) line
    → length line < room
    → fgets_lines limit room (line ++ 10 ∷ rest) ≡ ended line ∷ fgets_lines limit limit rest
unfolding fgets_lines
fgets_lines-line limit room [] rest h l = refl
fgets_lines-line limit room (c ∷ line) rest (n, h) l =
    ground (arith, n.1, fgets_lines-line limit (room - 1) line rest h (omega (arith, l)), l)

pub fgets_lines-file_of :
    (lines : List Bytes)
    → All IsLine lines
    → fgets_lines (openssh_line_max - 1) (openssh_line_max - 1) (file_of lines) ≡ map ended lines
unfolding fgets_lines
fgets_lines-file_of [] h = refl
fgets_lines-file_of (line ∷ lines) (p, h) =
    fgets_lines-line 8191 8191 line (file_of lines) p.chars (omega (arith, p.fits))
    ∙ ap (λ rest. ended line ∷ rest) (fgets_lines-file_of lines h)

pub until_nul-ended :
    (line : Bytes) → All (λ c. (c ≢ 0) × (c ≢ 10)) line → until_nul (ended line) ≡ ended line
unfolding until_nul
until_nul-ended [] h = refl
until_nul-ended (c ∷ line) (n, h) = ground (arith, n.0, until_nul-ended line h)
