-- ===== src/Mappers/Mapfile/Lookup.antt =====
-- `mapfile_find` of mappers/mapper.c against the entries of the lines of the file.
use pam_pkcs.Base.{
  ℕ, zero, suc, ◌+◌, ◌<◌, ◌≤◌, ◌≡◌, ◌≢◌, ◌⊎◌, inl, inr, refl, ◌∙◌, sym, ap, subst, Bool, true,
  false, List, [], ◌∷◌, Option, none, some, arith, Bytes, Bool-cases, Option-cases, if◌then◌else◌,
  length, drop, All,
}
use pam_pkcs.Base.Cstr.{is_space}
use pam_pkcs.Strings.{is_empty_str}
use pam_pkcs.Mappers.Mapfile.{
  skip_spaces, find_newline, cut_line, parse_line, after_cut, get_mapent, MapEnv, key_matches,
  find_entry, find_in_file, found_or_key, mapped, has_no_file, mapfile_find,
}
use pam_pkcs.Mappers.Mapfile.Entries.{
  add_entry, lines, parse_lines, parse_nil, entries_of, skip_text, entries_of-skip_spaces,
  lines-cut_line, entries_of-rest, text-length, cut_line-All, skip_spaces-All, skip_spaces-length,
  text_not_newline,
}

skip_spaces-cases :
    (s : Bytes)
    → (skip_spaces s ≡ [])
      ⊎ ((c : ℕ) × (t : Bytes) × (skip_spaces s ≡ c ∷ t) × (is_space c ≡ false))
unfolding skip_spaces
skip_spaces-cases [] = inl refl
skip_spaces-cases (c ∷ s) = elim (Bool-cases (is_space c)) [
  | inl e ↦ elim (skip_spaces-cases s) [
    | inl n ↦ inl (rw (e, n))
    | inr (d, t, n, h) ↦ inr (d, t, rw (e, n), h)
  ]
  | inr e ↦ inr (c, s, rw e, e)
]

cut_line-text :
    (c : ℕ) (t : Bytes)
    → is_space c ≡ false
    → c ≢ 0
    → (line : Bytes) × ((cut_line (c ∷ t)).0 ≡ c ∷ line)
unfolding cut_line find_newline
cut_line-text c t h z = elim (Option-cases (find_newline t)) [
  | inl e ↦ (t, ground (arith, text_not_newline c h, e))
  | inr (r, e) ↦ (r.0, ground (arith, text_not_newline c h, e))
]

entries_of-text :
    (c : ℕ) (t : Bytes)
    → is_space c ≡ false
    → All (λ x. x ≢ 0) (c ∷ t)
    → entries_of (c ∷ t)
      ≡ add_entry (parse_line (cut_line (c ∷ t)).0) (entries_of (cut_line (c ∷ t)).1)
entries_of-text c t h a =
    let (line, e) = cut_line-text c t h a.0 in
    ap parse_lines (lines-cut_line (c ∷ t) a)
    ∙ ap (λ l. add_entry (parse_line l) (parse_lines (drop 1 (lines (cut_line (c ∷ t)).1))))
        (ap skip_spaces e ∙ skip_text c line h ∙ sym e)
    ∙ ap (add_entry (parse_line (cut_line (c ∷ t)).0)) (sym (entries_of-rest (c ∷ t)))

-- What `get_mapent` gives is the first entry of the text, and the text of the others.
abbrev Reads : Bytes → Option (Bytes × Bytes × Bytes) → Type 0
Reads pt none = entries_of pt ≡ []
Reads pt (some (key, value, to)) =
    (entries_of pt ≡ (key, value) ∷ entries_of to) × (length to < length pt) × All (λ c. c ≢ 0) to

Reads-weaken :
    (from to : Bytes) (o : Option (Bytes × Bytes × Bytes))
    → entries_of to ≡ entries_of from
    → length from ≤ length to
    → Reads from o
    → Reads to o
Reads-weaken from to none e l r = e ∙ r
Reads-weaken from to (some (key, value, rest)) e l r = (e ∙ r.0, omega (arith, r.1, l), r.2)

get_mapent-blank : (fuel : ℕ) (pt : Bytes) → skip_spaces pt ≡ [] → get_mapent (suc fuel) pt ≡ none
unfolding get_mapent after_cut cut_line find_newline
get_mapent-blank fuel pt e = rw e

get_mapent-step :
    (fuel : ℕ) (pt : Bytes) (c : ℕ) (line to : Bytes)
    → cut_line (skip_spaces pt) ≡ (c ∷ line, to)
    → get_mapent (suc fuel) pt ≡ (elim (parse_line (c ∷ line)) [
      | none ↦ get_mapent fuel to
      | some (key, value) ↦ some (key, value, to)
    ])
unfolding get_mapent after_cut
get_mapent-step fuel pt c line to e = rw e

-- The line that the cursor stands before, once the blanks are skipped.
FirstLine : Bytes → Bytes × Bytes → Type 0
FirstLine pt (line, to) =
    (c : ℕ) × (rest : Bytes) × (line ≡ c ∷ rest)
    × (cut_line (skip_spaces pt) ≡ (line, to))
    × (entries_of pt ≡ add_entry (parse_line line) (entries_of to))
    × (length to < length pt)
    × All (λ x. x ≢ 0) to

first_line :
    (pt : Bytes) (c : ℕ) (t : Bytes)
    → All (λ x. x ≢ 0) pt
    → skip_spaces pt ≡ c ∷ t
    → is_space c ≡ false
    → FirstLine pt (cut_line (c ∷ t))
unfolding FirstLine
first_line pt c t a e h =
    let a' = subst (All (λ x. x ≢ 0)) e (skip_spaces-All pt a) in
    let (rest, e2) = cut_line-text c t h a'.0 in
    (
      c,
      rest,
      e2,
      ap cut_line e,
      sym (entries_of-skip_spaces pt) ∙ ap entries_of e ∙ entries_of-text c t h a',
      omega (arith, text-length c t h, skip_spaces-length pt, ap length e),
      cut_line-All (c ∷ t) a',
    )

smaller :
    (pt : Bytes) (cut : Bytes × Bytes)
    → FirstLine pt cut
    → (fuel : ℕ) → length pt < suc fuel
    → length cut.1 < fuel
unfolding FirstLine
smaller pt cut f fuel l = omega (arith, f.5, l)

rest_All : (pt : Bytes) (cut : Bytes × Bytes) → FirstLine pt cut → All (λ x. x ≢ 0) cut.1
unfolding FirstLine
rest_All pt cut f = f.6

get_mapent-line :
    (fuel : ℕ) (pt line to : Bytes)
    → FirstLine pt (line, to)
    → Reads to (get_mapent fuel to)
    → Reads pt (get_mapent (suc fuel) pt)
unfolding FirstLine
get_mapent-line fuel pt line to (c, rest, el, ec, es, l, a) r =
    subst (Reads pt) (sym (get_mapent-step fuel pt c rest to (ec ∙ ap (λ x. (x, to)) el)))
      (elim (Option-cases (parse_line (c ∷ rest))) [
        | inl n ↦
            subst
              (λ o.
                Reads pt (elim o [
                  | none ↦ get_mapent fuel to
                  | some (key, value) ↦ some (key, value, to)
                ]))
              (sym n)
              (Reads-weaken to pt (get_mapent fuel to)
                (es ∙ ap (λ o. add_entry o (entries_of to)) (ap parse_line el ∙ n))
                (omega (arith, l)) r)
        | inr ((key, value), n) ↦
            subst
              (λ o.
                Reads pt (elim o [
                  | none ↦ get_mapent fuel to
                  | some (key, value) ↦ some (key, value, to)
                ]))
              (sym n) (es ∙ ap (λ o. add_entry o (entries_of to)) (ap parse_line el ∙ n), l, a)
      ])

get_mapent-Reads :
    (fuel : ℕ) (pt : Bytes) → length pt < fuel → All (λ c. c ≢ 0) pt → Reads pt (get_mapent fuel pt)
get_mapent-Reads zero pt l a = absurd (omega (arith, l))
get_mapent-Reads (suc fuel) pt l a = elim (skip_spaces-cases pt) [
  | inl e ↦
      subst (Reads pt) (sym (get_mapent-blank fuel pt e))
        (sym (entries_of-skip_spaces pt) ∙ ap entries_of e ∙ rw parse_nil)
  | inr (c, t, e, h) ↦
      let f = first_line pt c t a e h in
      get_mapent-line fuel pt (cut_line (c ∷ t)).0 (cut_line (c ∷ t)).1 f (
        get_mapent-Reads fuel (cut_line (c ∷ t)).1 (smaller pt (cut_line (c ∷ t)) f fuel l)
          (rest_All pt (cut_line (c ∷ t)) f))
]

module _ (env : MapEnv) where
  -- The value of the first entry whose key matches, if there is one.
  abbrev pub first_value : Bool → Bytes → List (Bytes × Bytes) → Option Bytes
  first_value icase key [] = none
  first_value icase key ((entry_key, value) ∷ es) =
      if key_matches env icase key entry_key then some value else first_value icase key es

  abbrev next_value : ℕ → Bool → Bytes → Option (Bytes × Bytes × Bytes) → Option Bytes
  next_value fuel icase key none = none
  next_value fuel icase key (some (entry_key, value, to)) =
      if key_matches env icase key entry_key then some value else find_entry env fuel icase key to

  find_entry-next_value :
      (fuel : ℕ) (icase : Bool) (key pt : Bytes)
      → find_entry env (suc fuel) icase key pt
        ≡ next_value fuel icase key (get_mapent (length pt + 1) pt)
  unfolding find_entry
  find_entry-next_value fuel icase key pt = elim (Option-cases (get_mapent (length pt + 1) pt)) [
    | inl e ↦ ground (arith, e)
    | inr ((entry_key, value, to), e) ↦ elim (Bool-cases (key_matches env icase key entry_key)) [
      | inl m ↦ ground (arith, e, m)
      | inr m ↦ ground (arith, e, m)
    ]
  ]

  next_value-first_value :
      (fuel : ℕ) (icase : Bool) (key pt : Bytes) (o : Option (Bytes × Bytes × Bytes))
      → Reads pt o
      → length pt < suc fuel
      → ((to : Bytes)
          → length to < fuel
          → All (λ c. c ≢ 0) to
          → find_entry env fuel icase key to ≡ first_value icase key (entries_of to))
      → next_value fuel icase key o ≡ first_value icase key (entries_of pt)
  next_value-first_value fuel icase key pt none r l again = sym (ap (first_value icase key) r)
  next_value-first_value fuel icase key pt (some (entry_key, value, to)) r l again =
      ap (λ o. if key_matches env icase key entry_key then some value else o)
        (again to (omega (arith, r.1, l)) r.2)
      ∙ sym (ap (first_value icase key) r.0)

  find_entry-first_value :
      (fuel : ℕ) (icase : Bool) (key pt : Bytes)
      → length pt < fuel
      → All (λ c. c ≢ 0) pt
      → find_entry env fuel icase key pt ≡ first_value icase key (entries_of pt)
  find_entry-first_value zero icase key pt l a = absurd (omega (arith, l))
  find_entry-first_value (suc fuel) icase key pt l a =
      find_entry-next_value fuel icase key pt
      ∙ next_value-first_value fuel icase key pt (get_mapent (length pt + 1) pt)
          (get_mapent-Reads (length pt + 1) pt (omega arith) a) l
          (λ to. find_entry-first_value fuel icase key to)

  -- The value of a lookup and its match flag, for what was found.
  abbrev pub lookup_result : Bytes → Option Bytes → Option Bytes × Bool
  lookup_result key none = (some key, false)
  lookup_result key (some value) = (some value, true)

  -- For a key that is not blank and a map file that is named, can be read and holds no null byte,
  -- the lookup gives the value of the first entry of the file's lines whose key matches, with the
  -- match flag set, and the key itself with the flag clear where no entry matches.
  pub mapfile_find-first_value :
      (file key buffer : Bytes) (icase : Bool)
      → is_empty_str (some key) ≡ false
      → has_no_file (some file) ≡ false
      → env.get_from_uri file ≡ some buffer
      → All (λ c. c ≢ 0) buffer
      → mapfile_find env (some file) (some key) icase
        ≡ lookup_result key (first_value icase key (entries_of buffer))
  unfolding mapfile_find mapped find_in_file found_or_key
  mapfile_find-first_value file key buffer icase k f u a =
      elim (Option-cases (first_value icase key (entries_of buffer))) [
        | inl e ↦ ground (
          arith,
          k,
          f,
          u,
          e,
          find_entry-first_value (length buffer + 1) icase key buffer (omega arith) a,
        )
        | inr (v, e) ↦ ground (
          arith,
          k,
          f,
          u,
          e,
          find_entry-first_value (length buffer + 1) icase key buffer (omega arith) a,
        )
      ]
