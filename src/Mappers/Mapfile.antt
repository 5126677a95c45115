-- ===== src/Mappers/Mapfile.antt =====
-- mappers/mapper.c: map files. A buffer is the list of its bytes; the byte behind it is read as a
-- null. The regular expressions of the C library and the download of a file are parameters.
pub mod Entries
pub mod Lookup
pub mod Match
use pam_pkcs.Base.{
  ℕ, zero, suc, ◌+◌, Bool, true, false, ◌&&◌, ◌||◌, List, [], ◌∷◌, Option, none, some, Bytes,
  if◌then◌else◌, ◌==◌, drop, length,
}
use pam_pkcs.Base.Int.{ℤ, pos, negsuc}
use pam_pkcs.Base.Cstr.{codes, is_space, streq, strcaseeq, strstr}
use pam_pkcs.Strings.{is_empty_str}
use pam_pkcs.Pkcs11.Slots.{cstring}

unfoldable pub skip_spaces : Bytes → Bytes
skip_spaces [] = []
skip_spaces (c ∷ s) = if is_space c then skip_spaces s else c ∷ s

-- `strchr(from, '\n')`: what stands before the newline, and the text from it on.
unfoldable pub find_newline : Bytes → Option (Bytes × Bytes)
find_newline [] = none
find_newline (c ∷ s) =
    let rest = find_newline s in
    if c == 0
    then none
    else if c == 10
    then some ([], c ∷ s)
    else elim rest [ none ↦ none | some (line, to) ↦ some (c ∷ line, to) ]

-- The line, and where the next one is looked for: at the end of the buffer if there is none.
unfoldable pub cut_line : Bytes → Bytes × Bytes
unfolding find_newline
cut_line from = elim (find_newline from) [ some (line, to) ↦ (line, to) | none ↦ (from, []) ]

split_arrow : Option (Bytes × Bytes) → Option (Bytes × Bytes)
split_arrow none = none
split_arrow (some (key, rest)) = some (key, drop 4 rest)

parse_str : Bytes → Option (Bytes × Bytes)
unfolding split_arrow
parse_str [] = split_arrow (strstr [] (codes " -> "))
parse_str (c ∷ s) = if c == b'#' then none else split_arrow (strstr (c ∷ s) (codes " -> "))

-- The key and the value of a line, unless it is a comment or holds no arrow.
unfoldable pub parse_line : Bytes → Option (Bytes × Bytes)
unfolding parse_str
parse_line line = parse_str (cstring line)

after_cut :
    (Bytes → Option (Bytes × Bytes × Bytes)) → Bytes × Bytes → Option (Bytes × Bytes × Bytes)
after_cut again ([], to) = none
after_cut again (c ∷ line, to) = elim (parse_line (c ∷ line)) [
  | none ↦ again to
  | some (key, value) ↦ some (key, value, to)
]

-- `get_mapent` from the text at `pt`: the next entry, and the text at the new `pt`.
unfoldable pub get_mapent : ℕ → Bytes → Option (Bytes × Bytes × Bytes)
unfolding after_cut
get_mapent zero pt = none
get_mapent (suc fuel) pt = after_cut (get_mapent fuel) (cut_line (skip_spaces pt))

last_is : ℕ → Bytes → Bool
last_is c [] = false
last_is c (x ∷ []) = x == c
last_is c (x ∷ y ∷ s) = last_is c (y ∷ s)

-- `key[0] == '^' && key[strlen(key) - 1] == '$'`
unfoldable pub is_regex : Bytes → Bool
unfolding last_is
is_regex [] = false
is_regex (c ∷ s) = c == b'^' && last_is b'$' (c ∷ s)

-- What the surroundings give: the content of a URL, and a compiled regular expression.
pub record MapEnv : Type 0 where
  pub get_from_uri : Bytes → Option Bytes
  pub regcomp : Bytes → Bool → Option (Bytes → Bool)

-- `!file || is_empty_str(file) || !strcmp(file, "none")`
unfoldable pub has_no_file : Option Bytes → Bool
has_no_file none = true
has_no_file (some f) = is_empty_str (some f) || streq f (codes "none")

found_or_key : Bytes → Option Bytes → Option Bytes × Bool
found_or_key key (some value) = (some value, true)
found_or_key key none = (some key, false)

module _ (env : MapEnv) where
  -- The key of an entry stands for the key that is looked up.
  unfoldable pub key_matches : Bool → Bytes → Bytes → Bool
  unfolding is_regex
  key_matches icase key entry_key =
      if is_regex entry_key
      then elim (env.regcomp entry_key icase) [ none ↦ false | some regexec ↦ regexec key ]
      else if icase
      then strcaseeq key entry_key
      else streq key entry_key

  -- The loop of `mapfile_find`: the value of the first entry whose key matches.
  unfoldable pub find_entry : ℕ → Bool → Bytes → Bytes → Option Bytes
  find_entry zero icase key pt = none
  find_entry (suc fuel) icase key pt = elim (get_mapent (length pt + 1) pt) [
    | none ↦ none
    | some (entry_key, value, to) ↦ elim (key_matches icase key entry_key) [
      | true ↦ some value
      | false ↦ find_entry fuel icase key to
    ]
  ]

  find_in_file : Bytes → Bytes → Bool → Option Bytes × Bool
  unfolding found_or_key find_entry
  find_in_file file key icase = elim (env.get_from_uri file) [
    | none ↦ (none, false)
    | some buffer ↦ found_or_key key (find_entry (length buffer + 1) icase key buffer)
  ]

  mapped : Option Bytes → Bytes → Bool → Option Bytes × Bool
  unfolding find_in_file has_no_file
  mapped none key icase = (some key, false)
  mapped (some file) key icase =
      if has_no_file (some file) then (some key, false) else find_in_file file key icase

  -- The mapped string, and whether `*match` was set.
  unfoldable pub mapfile_find : Option Bytes → Option Bytes → Bool → Option Bytes × Bool
  unfolding mapped
  mapfile_find file none icase = (none, false)
  mapfile_find file (some key) icase =
      if is_empty_str (some key) then (none, false) else mapped file key icase

  compare_mapped : Option Bytes → Bytes → Bool → ℤ
  compare_mapped none value icase = negsuc 0
  compare_mapped (some str) value icase =
      if icase
      then (if strcaseeq str value then pos 1 else pos 0)
      else if streq str value
      then pos 1
      else pos 0

  -- 1 if the mapped key is the value, 0 if not, -1 on an error.
  unfoldable pub mapfile_match : Option Bytes → Option Bytes → Bytes → Bool → ℤ
  unfolding compare_mapped mapfile_find
  mapfile_match file key value icase = compare_mapped (mapfile_find file key icase).0 value icase
