-- ===== src/Pam/Config/Policy.antt =====
-- The checks of certificates that pam_pkcs11/pam_config.c configures.
use pam_pkcs.Base.{
  ◌≡◌, refl, ap, sym, ◌∙◌, arith, Bool, false, not, List, [], ◌∷◌, Option, none, some, Bytes,
  if◌then◌else◌, All, if-each,
}
use pam_pkcs.Base.Int.{pos, negsuc}
use pam_pkcs.Base.Cstr.{codes, strchr}
use pam_pkcs.Uri.{contains}
use pam_pkcs.CertVfy.{CrlPolicy, crlp_none, CertPolicy, Ossl, verify_certificate}
use pam_pkcs.Pam.Config.{
  Block, Scconf, Configuration, configuration, set_quiet, set_debug, set_flags, set_blocks,
  set_paths, is_slot_unclear, set_screen_savers, parse_config_file, set_argument, set_value,
  set_arguments, set_config_file, pk_configure,
}

-- The checks of certificates that are asked for.
abbrev checks : Configuration → Bool × CrlPolicy × Bool
checks c = (c.policy.ca_policy, c.policy.crl_policy, c.policy.signature_policy)

abbrev NotPolicy : Bytes → Type 0
NotPolicy arg = contains arg (codes "cert_policy=") ≡ false

set_value-checks :
    (conf : Scconf) (arg : Bytes) (c : Configuration)
    → NotPolicy arg
    → checks (set_value conf arg c) ≡ checks c
unfolding set_value
set_value-checks conf arg c n = keep (contains arg (codes "pkcs11_module=")) _ _ refl (
    keep (contains arg (codes "slot_description=")) _ _ refl (
      keep (contains arg (codes "slot_num=")) _ _ refl (
        keep (contains arg (codes "ca_dir=")) _ _ refl (
          keep (contains arg (codes "crl_dir=")) _ _ refl (
            keep (contains arg (codes "nss_dir=")) _ _ refl
              (rw n (keep (contains arg (codes "token_type=")) _ _ refl refl)))))))
  where
    keep :
        (b : Bool) (x y : Configuration)
        → checks x ≡ checks c
        → checks y ≡ checks c
        → checks (if b then x else y) ≡ checks c
    keep = if-each (λ d. checks d ≡ checks c)

set_argument-checks :
    (conf : Scconf) (arg : Bytes) (c : Configuration)
    → NotPolicy arg
    → checks (set_argument conf arg c) ≡ checks c
unfolding set_argument
set_argument-checks conf arg c n = ground (arith, set_value-checks conf arg c n)

set_arguments-checks :
    (conf : Scconf) (args : List Bytes) (c : Configuration)
    → All NotPolicy args
    → checks (set_arguments conf args c) ≡ checks c
unfolding set_arguments
set_arguments-checks conf [] c h = refl
set_arguments-checks conf (arg ∷ args) c (n, h) =
    set_arguments-checks conf args (set_argument conf arg c) h ∙ set_argument-checks conf arg c n

abbrev HasNoSlot : Configuration → Type 0
HasNoSlot c = (c.slot_description ≡ none) × (c.slot_num ≡ negsuc 0)

-- The name of the PKCS #11 module that is used: the default, unless the block of the program gives one.
abbrev pub module_name : Block → Configuration → Bytes
module_name root c = elim (root.get_str (codes "use_pkcs11_module")) [
  | none ↦ c.pkcs11_module
  | some name ↦ name
]

-- The block of the PKCS #11 module that is used, if there is one, does not say which slot.
abbrev pub NamesNoSlot : Scconf → Configuration → Type 0
NamesNoSlot conf c =
    (root block : Block)
    → conf.root c.config_file ≡ some root
    → conf.modules c.config_file (module_name root c) ≡ some block
    → (block.get_str (codes "slot_description") ≡ none) × (block.get_int (codes "slot_num") ≡ none)

-- The same checks and the same slot.
abbrev Same : Configuration → Configuration → Type 0
Same c d =
    (checks d ≡ checks c) × (d.slot_description ≡ c.slot_description) × (d.slot_num ≡ c.slot_num)

Same-then : (c d e : Configuration) → Same c d → Same d e → Same c e
Same-then c d e (p, q, r) (p', q', r') = (p' ∙ p, q' ∙ q, r' ∙ r)

set_config_file-Same : (args : List Bytes) (c : Configuration) → Same c (set_config_file args c)
unfolding set_config_file
set_config_file-Same [] c = (refl, refl, refl)
set_config_file-Same (arg ∷ args) c =
    if-each (Same c) (contains arg (codes "config_file=")) _ _ (by_name (strchr arg b'='))
      (set_config_file-Same args c)
  where
    by_name :
        (o : Option (Bytes × Bytes))
        → Same c (elim o [ none ↦ c | some (name, file) ↦ record c { config_file = file } ])
    by_name none = (refl, refl, refl)
    by_name (some (name, file)) = (refl, refl, refl)

set_quiet-Same : (root : Block) (c : Configuration) → Same c (set_quiet root c)
unfolding set_quiet
set_quiet-Same root c = if-each (Same c) _ _ _ (refl, refl, refl) (refl, refl, refl)

set_debug-Same : (root : Block) (c : Configuration) → Same c (set_debug root c)
unfolding set_debug
set_debug-Same root c = if-each (Same c) _ _ _ (refl, refl, refl) (refl, refl, refl)

set_flags-Same : (root : Block) (c : Configuration) → Same c (set_flags root c)
unfolding set_flags
set_flags-Same root c =
    Same-then c (set_quiet root c) (set_debug root (set_quiet root c)) (set_quiet-Same root c)
      (set_debug-Same root (set_quiet root c))

-- The block is looked for under the name of the module.
set_flags-modules :
    (conf : Scconf) (root : Block) (c : Configuration)
    → conf.modules (set_flags root c).config_file (set_flags root c).pkcs11_module
      ≡ conf.modules c.config_file (module_name root c)
unfolding set_flags set_debug set_quiet
set_flags-modules conf root c = ground arith

set_screen_savers-checks :
    (root : Block) (c : Configuration) → checks (set_screen_savers root c) ≡ checks c
unfolding set_screen_savers
set_screen_savers-checks root c = by_list (root.find_list (codes "screen_savers"))
  where
    by_list :
        (l : List Bytes)
        → checks (elim l [ [] ↦ c | s ∷ l' ↦ record c { screen_savers = some (s ∷ l') } ])
          ≡ checks c
    by_list [] = refl
    by_list (s ∷ l) = refl

set_blocks-checks :
    (o : Option Block) (root : Block) (c : Configuration)
    → HasNoSlot c
    → ((block : Block)
        → o ≡ some block
        → (block.get_str (codes "slot_description") ≡ none)
          × (block.get_int (codes "slot_num") ≡ none))
    → checks (set_blocks o root c) ≡ checks c
unfolding set_blocks set_paths is_slot_unclear
set_blocks-checks none root c s n = set_screen_savers-checks root c
set_blocks-checks (some block) root c s n = let (d, k) = n block refl in rw (d, k, s.0, s.1) refl

parse_config_file-checks :
    (conf : Scconf) (c : Configuration)
    → NamesNoSlot conf c
    → HasNoSlot c
    → checks (parse_config_file conf c) ≡ checks c
unfolding parse_config_file
parse_config_file-checks conf c n s =
    keep (not (conf.new c.config_file)) _ _ refl
      (keep (not (conf.is_parsed c.config_file)) _ _ refl (by_root (conf.root c.config_file) refl))
  where
    keep :
        (b : Bool) (x y : Configuration)
        → checks x ≡ checks c
        → checks y ≡ checks c
        → checks (if b then x else y) ≡ checks c
    keep = if-each (λ d. checks d ≡ checks c)

    by_root :
        (o : Option Block)
        → conf.root c.config_file ≡ o
        → checks (elim o [
          | none ↦ c
          | some root ↦
              set_blocks
                (conf.modules (set_flags root c).config_file (set_flags root c).pkcs11_module)
                root
                (set_flags root c)
        ])
          ≡ checks c
    by_root none e = refl
    by_root (some root) e =
        let (f, d, k) = set_flags-Same root c in
        set_blocks-checks
          (conf.modules (set_flags root c).config_file (set_flags root c).pkcs11_module) root
          (set_flags root c) (d ∙ s.0, k ∙ s.1)
          (λ block k. n root block e (sym (set_flags-modules conf root c) ∙ k))
        ∙ f

pk_configure-checks :
    (conf : Scconf) (argv : List Bytes) (c : Configuration)
    → NamesNoSlot conf (set_config_file argv c)
    → HasNoSlot c
    → All NotPolicy argv
    → checks (pk_configure conf argv c) ≡ checks c
unfolding pk_configure
pk_configure-checks conf argv c n s h =
    let (f, d, k) = set_config_file-Same argv c in
    set_arguments-checks conf argv (parse_config_file conf (set_config_file argv c)) h
    ∙ parse_config_file-checks conf (set_config_file argv c) n (d ∙ s.0, k ∙ s.1)
    ∙ f

verify_certificate_off :
    {X509 Crl Key : Type 0} (o : Ossl X509 Crl Key) (x509 : X509) (p : CertPolicy)
    → p.ca_policy ≡ false
    → p.crl_policy ≡ crlp_none
    → verify_certificate o x509 p ≡ pos 1
unfolding verify_certificate
verify_certificate_off o x509 p ca crl = rw (ca, crl) refl

-- Where the block of the PKCS #11 module that the file chooses does not say which slot to use, as where
-- the slot is to come from an argument, and no argument has a certificate policy, no policy of the file
-- is read, whatever other blocks say: the CA check, the CRL check and the check of the signature stay off, and `verify_certificate`
-- accepts every certificate.
pub pk_configure-verify_certificate :
    {X509 Crl Key : Type 0} (o : Ossl X509 Crl Key) (conf : Scconf) (argv : List Bytes)
    (confdir : Bytes) (x509 : X509)
    → NamesNoSlot conf (set_config_file argv (configuration confdir))
    → All (λ arg. contains arg (codes "cert_policy=") ≡ false) argv
    → let c = pk_configure conf argv (configuration confdir) in
      (c.policy.signature_policy ≡ false) × (verify_certificate o x509 c.policy ≡ pos 1)
pk_configure-verify_certificate o conf argv confdir x509 n h =
    let c = pk_configure conf argv (configuration confdir) in
    let e = pk_configure-checks conf argv (configuration confdir) n (refl, refl) h in
    (ap (λ k. k.2) e, verify_certificate_off o x509 c.policy (ap (λ k. k.0) e) (ap (λ k. k.1) e))
