-- ===== src/Mappers/Openssh/Finder.antt =====
-- The finder and the matcher of mappers/openssh_mapper.c, and its lines of SSH version 1.
use pam_pkcs.Base.{
  ℕ, suc, ◌≤◌, ◌≡◌, ap, ◌∙◌, subst, arith, true, ◌∷◌, some, Option, Bytes, All, inl, inr,
  Option-cases,
}
use pam_pkcs.Base.Int.{pos}
use pam_pkcs.CertInfo.Sshpuk.{Bignums, Pkey}
use pam_pkcs.Mappers.Homes.{Passwd, find_first_iff, All-middle}
use pam_pkcs.Mappers.Openssh.{
  no_key, ssh1_line_to_key, line_key, key_at, until_nul, skip_blanks, Users, match_passwd,
  match_entry, openssh_mapper_match_user, openssh_mapper_find_user,
}

-- A line whose first number does not begin with 0, as a line of SSH version 1 does, gives no key.
pub line_key-ssh1 :
    {Bn : Type 0} (lib : Bignums Bn) (c : ℕ) (line : Bytes)
    → b'1' ≤ c
    → c ≤ b'9'
    → line_key lib (c ∷ line) ≡ no_key
unfolding line_key key_at until_nul skip_blanks ssh1_line_to_key
line_key-ssh1 lib c line h l = ground arith

module _ {Bn : Type 0} (lib : Bignums Bn) (users : Users) where
  -- The entry that getpwnam gives for the login of the entry is the entry.
  abbrev pub IsKnown : Passwd → Type 0
  IsKnown pw = users.getpwnam pw.pw_name ≡ some pw

  entry_match :
      (x509 : Option (Pkey Bn)) (pw : Passwd) (n : ℕ)
      → match_entry lib users x509 pw ≡ some (pos (suc n))
      → match_passwd lib users x509 (some pw) ≡ some (pos (suc n))
  unfolding match_entry match_passwd
  entry_match x509 pw n e = elim (Option-cases pw.pw_dir) [
    | inl k ↦ absurd (ground (arith, e, k))
    | inr (dir, k) ↦ ground (arith, e, k)
  ]

  -- `openssh_mapper_match_user` matches a login that `openssh_mapper_find_user` has found, where getpwnam
  -- knows the entries that getpwent gives.
  pub openssh_mapper_match_user-find_user :
      (x509 : Option (Pkey Bn)) (user : Bytes)
      → All IsKnown users.entries
      → openssh_mapper_find_user lib users x509 ≡ some (some user, true)
      → (n : ℕ) × (openssh_mapper_match_user lib users x509 user ≡ some (pos (suc n)))
  unfolding openssh_mapper_find_user openssh_mapper_match_user match_entry match_passwd
  openssh_mapper_match_user-find_user x509 user h e =
      let f = (find_first_iff (match_entry lib users x509) users.entries user).0 e in
      let known : users.getpwnam user ≡ some f.pw =
        subst (λ u. users.getpwnam u ≡ some f.pw) f.named
          (All-middle IsKnown f.before f.pw f.after (subst (λ l. All IsKnown l) f.entries h)) in
      (
        f.matched.0,
        ap (match_passwd lib users x509) known ∙ entry_match x509 f.pw f.matched.0 f.matched.1,
      )
