-- ===== src/Mappers/Mapfile/Entries.antt =====
-- The entries that `get_mapent` of mappers/mapper.c reads are those of the lines of the file.
use pam_pkcs.Base.{
  ℕ, ◌<◌, ◌≤◌, ◌≡◌, ◌≢◌, ◌⊎◌, inl, inr, refl, ◌∙◌, sym, ap, subst, true, false, List, [], ◌∷◌,
  Option, none, some, arith, Bytes, Bool-cases, Option-cases, if◌then◌else◌, ◌==◌, length, drop,
  All,
}
use pam_pkcs.Base.Cstr.{is_space, strstr}
use pam_pkcs.Pkcs11.Slots.{cstring}
use pam_pkcs.Mappers.Mapfile.{skip_spaces, find_newline, cut_line, parse_line}

-- The lines of a text.
abbrev pub cons_first : ℕ → List Bytes → List Bytes
cons_first c [] = (c ∷ []) ∷ []
cons_first c (l ∷ ls) = (c ∷ l) ∷ ls

abbrev pub lines : Bytes → List Bytes
lines [] = [] ∷ []
lines (c ∷ s) = if c == 10 then [] ∷ lines s else cons_first c (lines s)

abbrev pub add_entry : Option (Bytes × Bytes) → List (Bytes × Bytes) → List (Bytes × Bytes)
add_entry none es = es
add_entry (some e) es = e ∷ es

abbrev pub parse_lines : List Bytes → List (Bytes × Bytes)
parse_lines [] = []
parse_lines (l ∷ ls) = add_entry (parse_line (skip_spaces l)) (parse_lines ls)

-- The entries of a map file, line by line, each without the blanks at its start.
abbrev pub entries_of : Bytes → List (Bytes × Bytes)
entries_of s = parse_lines (lines s)

pub parse_nil : parse_line (skip_spaces []) ≡ none
unfolding parse_line skip_spaces cstring strstr
parse_nil = refl

skip_space : (c : ℕ) (s : Bytes) → is_space c ≡ true → skip_spaces (c ∷ s) ≡ skip_spaces s
unfolding skip_spaces
skip_space c s h = rw h

pub skip_text : (c : ℕ) (s : Bytes) → is_space c ≡ false → skip_spaces (c ∷ s) ≡ c ∷ s
unfolding skip_spaces
skip_text c s h = rw h

parse_lines-cons_first :
    (c : ℕ) (ls : List Bytes) → is_space c ≡ true → parse_lines (cons_first c ls) ≡ parse_lines ls
parse_lines-cons_first c [] h = rw (skip_space c [] h, parse_nil)
parse_lines-cons_first c (l ∷ ls) h = rw (skip_space c l h)

entries_of-space : (c : ℕ) (s : Bytes) → is_space c ≡ true → entries_of (c ∷ s) ≡ entries_of s
entries_of-space c s h = elim (Bool-cases (c == 10)) [
  | inl e ↦ rw (e, parse_nil)
  | inr e ↦
      ap (λ b. parse_lines (if b then [] ∷ lines s else cons_first c (lines s))) e
      ∙ parse_lines-cons_first c (lines s) h
]

pub entries_of-skip_spaces : (s : Bytes) → entries_of (skip_spaces s) ≡ entries_of s
entries_of-skip_spaces [] = unfold skip_spaces in refl
entries_of-skip_spaces (c ∷ s) = elim (Bool-cases (is_space c)) [
  | inl e ↦
      ap entries_of (skip_space c s e) ∙ entries_of-skip_spaces s ∙ sym (entries_of-space c s e)
  | inr e ↦ ap entries_of (skip_text c s e)
]

pub lines-cut_line :
    (s : Bytes) → All (λ c. c ≢ 0) s → lines s ≡ (cut_line s).0 ∷ drop 1 (lines (cut_line s).1)
unfolding cut_line find_newline
lines-cut_line [] a = refl
lines-cut_line (c ∷ s) a = elim (Option-cases (find_newline s)) [
  | inl e ↦ ground (arith, lines-cut_line s a.1, a.0, e)
  | inr (r, e) ↦ ground (arith, lines-cut_line s a.1, a.0, e)
]

cut_nil : [] ≡ (cut_line []).1
unfolding cut_line find_newline
cut_nil = refl

pub text_not_newline : (c : ℕ) → is_space c ≡ false → c ≢ 10
unfolding is_space
text_not_newline c h d = ground (arith, h, d)

-- What is left after a line: nothing, the newline on, or what the rest of the line leaves.
cut_line-cases :
    (c : ℕ) (s : Bytes)
    → ((cut_line (c ∷ s)).1 ≡ [])
      ⊎ ((c ≡ 10) × ((cut_line (c ∷ s)).1 ≡ 10 ∷ s))
      ⊎ ((c ≢ 10) × ((cut_line (c ∷ s)).1 ≡ (cut_line s).1))
unfolding cut_line find_newline
cut_line-cases c s = elim (Bool-cases (c == 10)) [
  | inl e ↦ inr (inl (ground (arith, e), ground (arith, e)))
  | inr e ↦ elim (Bool-cases (c == 0)) [
    | inl z ↦ inl (ground (arith, z))
    | inr z ↦ elim (Option-cases (find_newline s)) [
      | inl n ↦ inl (ground (arith, n))
      | inr (r, n) ↦ inr (inr (ground (arith, e), ground (arith, e, z, n)))
    ]
  ]
]

module _ (P : Bytes → Type 0) (none_left : P []) (newline : (s : Bytes) → P (10 ∷ s)) where
  cut_line-rule : (s : Bytes) → P (cut_line s).1
  cut_line-rule [] = subst P cut_nil none_left
  cut_line-rule (c ∷ s) = elim (cut_line-cases c s) [
    | inl e ↦ subst P (sym e) none_left
    | inr (inl (_, e)) ↦ subst P (sym e) (newline s)
    | inr (inr (_, e)) ↦ subst P (sym e) (cut_line-rule s)
  ]

pub entries_of-rest :
    (s : Bytes) → entries_of (cut_line s).1 ≡ parse_lines (drop 1 (lines (cut_line s).1))
entries_of-rest =
    cut_line-rule (λ t. entries_of t ≡ parse_lines (drop 1 (lines t))) (rw parse_nil)
      (λ s. rw parse_nil)

cut_line-length : (s : Bytes) → length (cut_line s).1 ≤ length s
cut_line-length [] = subst (λ t. length t ≤ 0) cut_nil (omega arith)
cut_line-length (c ∷ s) = elim (cut_line-cases c s) [
  | inl e ↦ subst (λ t. length t ≤ length (c ∷ s)) (sym e) (omega arith)
  | inr (inl (_, e)) ↦ subst (λ t. length t ≤ length (c ∷ s)) (sym e) (omega arith)
  | inr (inr (_, e)) ↦
      subst (λ t. length t ≤ length (c ∷ s)) (sym e) (omega (arith, cut_line-length s))
]

pub text-length :
    (c : ℕ) (s : Bytes) → is_space c ≡ false → length (cut_line (c ∷ s)).1 < length (c ∷ s)
text-length c s h = elim (cut_line-cases c s) [
  | inl e ↦ subst (λ t. length t < length (c ∷ s)) (sym e) (omega arith)
  | inr (inl (d, _)) ↦ absurd (text_not_newline c h d)
  | inr (inr (_, e)) ↦
      subst (λ t. length t < length (c ∷ s)) (sym e) (omega (arith, cut_line-length s))
]

pub cut_line-All : (s : Bytes) → All (λ c. c ≢ 0) s → All (λ c. c ≢ 0) (cut_line s).1
cut_line-All [] a = subst (All (λ c. c ≢ 0)) cut_nil tt
cut_line-All (c ∷ s) a = elim (cut_line-cases c s) [
  | inl e ↦ subst (All (λ c. c ≢ 0)) (sym e) tt
  | inr (inl (d, e)) ↦ subst (All (λ c. c ≢ 0)) (sym e) ((λ z. omega (arith, z)), a.1)
  | inr (inr (_, e)) ↦ subst (All (λ c. c ≢ 0)) (sym e) (cut_line-All s a.1)
]

pub skip_spaces-All : (s : Bytes) → All (λ c. c ≢ 0) s → All (λ c. c ≢ 0) (skip_spaces s)
skip_spaces-All [] a = unfold skip_spaces in tt
skip_spaces-All (c ∷ s) a = elim (Bool-cases (is_space c)) [
  | inl e ↦ subst (All (λ c. c ≢ 0)) (sym (skip_space c s e)) (skip_spaces-All s a.1)
  | inr e ↦ subst (All (λ c. c ≢ 0)) (sym (skip_text c s e)) a
]

pub skip_spaces-length : (s : Bytes) → length (skip_spaces s) ≤ length s
unfolding skip_spaces
skip_spaces-length [] = omega arith
skip_spaces-length (c ∷ s) = ground (arith, skip_spaces-length s)
