-- ===== src/Uri/Generic/Fetch/File.antt =====
-- `get_file` of common/uri.c, in the build without libcurl.
use pam_pkcs.Base.{
  ℕ, zero, suc, ◌+◌, ◌-◌, ◌<◌, ◌≤◌, ◌≡◌, refl, sym, ap, ◌∙◌, arith, true, false, [], ◌∷◌, some,
  Bytes, ltb, length, take, drop, drop-length, length-drop, take-drop, Bool-cases, inl, inr,
}
use pam_pkcs.Uri.Generic.{GenericUri}
use pam_pkcs.Uri.Generic.Fetch.{fetched, Disk, prepend, read_from, get_file}

-- The file does not change, and `read` gives some of the bytes that are asked for, one at least.
pub record IsHonest (disk : Disk) (path file : Bytes) : Type 0 where
  pub sized : disk.size path ≡ some (length file)
  pub reads :
      (len n : ℕ)
      → len < length file
      → 0 < n
      → (k : ℕ) × (0 < k) × (k ≤ n) × (disk.read path len n ≡ some (take k (drop len file)))

drop-nil : (n : ℕ) → drop {A = ℕ} n [] ≡ []
drop-nil zero = refl
drop-nil (suc n) = refl

drop-drop : (n k : ℕ) (s : Bytes) → drop k (drop n s) ≡ drop (n + k) s
drop-drop zero k s = ap (λ m. drop m s) {x = k} {y = 0 + k} (omega arith)
drop-drop (suc n) k [] = drop-nil k ∙ sym (drop-nil (suc n + k))
drop-drop (suc n) k (c ∷ s) =
    drop-drop n k s ∙ ap (λ m. drop m (c ∷ s)) {x = suc (n + k)} {y = suc n + k} (omega arith)

length-take : (k : ℕ) (s : Bytes) → k ≤ length s → length (take k s) ≡ k
length-take zero s h = refl
length-take (suc k) [] h = absurd (omega (arith, h))
length-take (suc k) (c ∷ s) h = omega (arith, length-take k s (omega (arith, h)))

module _ (disk : Disk) (path file : Bytes) (honest : IsHonest disk path file) where
  -- A round that reads some bytes.
  read_some :
      (fuel len : ℕ) (chunk : Bytes)
      → len < length file
      → 0 < length chunk
      → disk.read path len (length file - len) ≡ some chunk
      → read_from disk (suc fuel) path (length file) len
        ≡ prepend chunk (read_from disk fuel path (length file) (len + length chunk))
  unfolding read_from
  read_some fuel len [] l p e = absurd (omega (arith, p))
  read_some fuel len (c ∷ s) l p e =
      let k : ltb len (length file) ≡ true = ground (arith, l) in rw (read_from, k, e) refl

  read_from_lem :
      (fuel len : ℕ)
      → length file ≤ fuel + len
      → len ≤ length file
      → read_from disk fuel path (length file) len ≡ fetched (drop len file)
  unfolding read_from
  read_from_lem zero len h l =
      let k : ltb len (length file) ≡ false = ground (arith, h) in
      rw (k, drop-length len file (omega (arith, h))) refl
  read_from_lem (suc fuel) len h l = elim (Bool-cases (ltb len (length file))) [
    | inl more ↦
        let (k, p, q, e) =
          honest.reads len (length file - len) (ground (arith, more)) (ground (arith, more)) in
        let chunk = take k (drop len file) in
        let size : length chunk ≡ k =
          length-take k (drop len file) (omega (arith, q, length-drop len file)) in
        read_some fuel len chunk (ground (arith, more)) (omega (arith, p, size)) e
        ∙ ap (prepend chunk) (
            ap (λ n. read_from disk fuel path (length file) (len + n)) size
            ∙ read_from_lem fuel (len + k) (omega (arith, h, p)) (omega (arith, q, l))
            ∙ ap fetched (sym (drop-drop len k file)))
        ∙ whole k len
    | inr done ↦ rw done (ap fetched (sym (drop-length len file (ground (arith, done)))))
  ]
    where
      whole :
          (k len : ℕ)
          → prepend (take k (drop len file)) (fetched (drop k (drop len file)))
            ≡ fetched (drop len file)
      whole k len = ap fetched (take-drop k (drop len file))

  -- `get_file` gives the content of a file, however many bytes each `read` gives.
  pub get_file_lem : (uri : GenericUri) → uri.path ≡ path → get_file disk uri ≡ fetched file
  unfolding get_file
  get_file_lem uri e =
      let k : disk.size uri.path ≡ some (length file) = ap disk.size e ∙ honest.sized in
      rw (get_file, k)
        (ap (λ q. read_from disk (length file) q (length file) 0) e
          ∙ read_from_lem (length file) 0 (omega arith) (omega arith))
