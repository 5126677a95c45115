-- ===== src/Uri.antt =====
-- common/uri.c: the tests on path names. `stat` is a parameter: the mode of the file that a path
-- names, or none where the call fails.
pub mod Generic
use pam_pkcs.Base.{
  Bool, false, ◌||◌, not, List, [], ◌∷◌, Option, none, some, Bytes, if◌then◌else◌, drop, is_some,
}
use pam_pkcs.Base.Int.{ℤ, pos, negsuc, is_zero}
use pam_pkcs.Base.Cstr.{codes, strstr}
use pam_pkcs.Strings.{is_empty_str}

pub data FileMode : Type 0 where
  regular directory symlink other : FileMode

abbrev pub valid_urls : List Bytes
valid_urls =
    codes "file:///" ∷ codes "http://" ∷ codes "https://" ∷ codes "ftp://" ∷ codes "ldap://" ∷ []

-- `strstr(path, sub)` is not null.
unfoldable pub contains : Bytes → Bytes → Bool
contains path sub = is_some (strstr path sub)

unfoldable pub contains_any : Bytes → List Bytes → Bool
contains_any path [] = false
contains_any path (u ∷ us) = contains path u || contains_any path us

is_uri_str : Bytes → ℤ
is_uri_str p = if contains_any p valid_urls then pos 1 else pos 0

-- 1 if it is, 0 if not, -1 for a null or blank path.
unfoldable pub is_uri : Option Bytes → ℤ
unfolding contains_any is_uri_str
is_uri none = negsuc 0
is_uri (some p) = if is_empty_str (some p) then negsuc 0 else is_uri_str p

module _ (stat : Bytes → Option FileMode) where
  -- A path that holds the name of a scheme must be of the scheme "file"; its first eight
  -- characters are then skipped.
  unfoldable pub stat_file : Bytes → Option FileMode
  unfolding contains is_uri
  stat_file path =
      if is_empty_str (some path)
      then none
      else if not (is_zero (is_uri (some path)))
      then if contains path (codes "file:///") then stat (drop 8 path) else none
      else stat path

  unfoldable pub is_file : Bytes → ℤ
  is_file path = elim (stat_file path) [
    | none ↦ negsuc 0
    | some m ↦ elim m [ regular ↦ pos 1 | _ ↦ pos 0 ]
  ]

  unfoldable pub is_dir : Bytes → ℤ
  is_dir path = elim (stat_file path) [
    | none ↦ negsuc 0
    | some m ↦ elim m [ directory ↦ pos 1 | _ ↦ pos 0 ]
  ]

  unfoldable pub is_symlink : Bytes → ℤ
  is_symlink path = elim (stat_file path) [
    | none ↦ negsuc 0
    | some m ↦ elim m [ symlink ↦ pos 1 | _ ↦ pos 0 ]
  ]
