-- ===== src/Pam/Config/Items.antt =====
-- The list of policies and the arguments that pam_pkcs11/pam_config.c reads.
use pam_pkcs.Base.{
  ◌≡◌, ◌↔◌, ◌⊎◌, refl, sym, ap, subst, ◌∙◌, inl, inr, arith, Bool, true, false, List, [], ◌∷◌, ◌++◌,
  Bytes, if◌then◌else◌, All, Bool-cases, if-each,
}
use pam_pkcs.Base.Cstr.{codes, streq, streq_iff, streq_refl}
use pam_pkcs.Uri.{contains}
use pam_pkcs.CertVfy.{crlp_none, CertPolicy}
use pam_pkcs.Pam.Config.{
  Scconf, Configuration, policy_changes, apply_changes, parse_config_file, set_argument,
  set_argument_policy, set_value, set_arguments, set_config_file, pk_configure, set_policies,
  set_policy,
}

-- Some item of the list is this name.
abbrev pub Named : Bytes → List Bytes → Type 0
Named name [] = ⊥
Named name (item ∷ items) = (streq item name ≡ true) ⊎ Named name items

abbrev pub IsOff : CertPolicy → Type 0
IsOff p = (p.ca_policy ≡ false) × (p.crl_policy ≡ crlp_none) × (p.signature_policy ≡ false)

-- An item sets what it names, and leaves the rest of the two checks as it was.
ca_named :
    (item : Bytes) (c : Configuration)
    → streq item (codes "ca") ≡ true
    → (set_policy item c).policy.ca_policy ≡ true
unfolding set_policy streq
ca_named item c e =
    subst (λ i. (set_policy i c).policy.ca_policy ≡ true) (sym ((streq_iff item (codes "ca")).0 e))
      refl

signature_named :
    (item : Bytes) (c : Configuration)
    → streq item (codes "signature") ≡ true
    → (set_policy item c).policy.signature_policy ≡ true
unfolding set_policy streq
signature_named item c e =
    subst (λ i. (set_policy i c).policy.signature_policy ≡ true)
      (sym ((streq_iff item (codes "signature")).0 e)) refl

ca_kept :
    (item : Bytes) (c : Configuration)
    → streq item (codes "ca") ≡ false
    → (set_policy item c).policy.ca_policy ≡ c.policy.ca_policy
unfolding set_policy
ca_kept item c n = keep (streq item (codes "crl_auto")) _ _ refl (
    keep (streq item (codes "crl_online")) _ _ refl (
      keep (streq item (codes "crl_offline")) _ _ refl (
        keep (streq item (codes "ocsp_on")) _ _ refl
          (rw n (keep (streq item (codes "signature")) _ _ refl refl)))))
  where
    keep :
        (b : Bool) (x y : Configuration)
        → x.policy.ca_policy ≡ c.policy.ca_policy
        → y.policy.ca_policy ≡ c.policy.ca_policy
        → (if b then x else y).policy.ca_policy ≡ c.policy.ca_policy
    keep = if-each (λ d. d.policy.ca_policy ≡ c.policy.ca_policy)

signature_kept :
    (item : Bytes) (c : Configuration)
    → streq item (codes "signature") ≡ false
    → (set_policy item c).policy.signature_policy ≡ c.policy.signature_policy
unfolding set_policy
signature_kept item c n = keep (streq item (codes "crl_auto")) _ _ refl (
    keep (streq item (codes "crl_online")) _ _ refl (
      keep (streq item (codes "crl_offline")) _ _ refl (
        keep (streq item (codes "ocsp_on")) _ _ refl
          (keep (streq item (codes "ca")) _ _ refl (rw n refl)))))
  where
    keep :
        (b : Bool) (x y : Configuration)
        → x.policy.signature_policy ≡ c.policy.signature_policy
        → y.policy.signature_policy ≡ c.policy.signature_policy
        → (if b then x else y).policy.signature_policy ≡ c.policy.signature_policy
    keep = if-each (λ d. d.policy.signature_policy ≡ c.policy.signature_policy)

-- What the list does to the checks, up to an item "none".
abbrev pub AsListed : List Bytes → CertPolicy → CertPolicy → Type 0
AsListed items p q =
    ((q.ca_policy ≡ true) ↔ (Named (codes "ca") items ⊎ (p.ca_policy ≡ true)))
    × ((q.signature_policy ≡ true)
        ↔ (Named (codes "signature") items ⊎ (p.signature_policy ≡ true)))

one_more :
    (name item : Bytes) (items : List Bytes) (before between after : Bool)
    → (streq item name ≡ true → between ≡ true)
    → (streq item name ≡ false → between ≡ before)
    → ((after ≡ true) ↔ (Named name items ⊎ (between ≡ true)))
    → (after ≡ true) ↔ (Named name (item ∷ items) ⊎ (before ≡ true))
one_more name item items before between after s k i = elim (Bool-cases (streq item name)) [
  | inl e ↦ (λ h. inl (inl e), λ h. i.1 (inr (s e)))
  | inr e ↦ ground (arith, e, k e, i)
]

set_policies-AsListed :
    (items : List Bytes) (c : Configuration)
    → All (λ item. streq item (codes "none") ≡ false) items
    → AsListed items c.policy (set_policies items c).policy
unfolding set_policies
set_policies-AsListed [] c h = (
  (λ e. inr e, λ e. elim e [ inl n ↦ absurd n | inr f ↦ f ]),
  (λ e. inr e, λ e. elim e [ inl n ↦ absurd n | inr f ↦ f ]),
)
set_policies-AsListed (item ∷ items) c (n, h) =
    let d = set_policy item c in
    let (ca, sig) = set_policies-AsListed items d h in
    rw n (
      one_more (codes "ca") item items c.policy.ca_policy d.policy.ca_policy
          (set_policies items d).policy.ca_policy (ca_named item c) (ca_kept item c) ca,
      one_more (codes "signature") item items c.policy.signature_policy d.policy.signature_policy
          (set_policies items d).policy.signature_policy (signature_named item c)
          (signature_kept item c) sig,
    )

set_policies-none :
    (items rest : List Bytes) (c : Configuration)
    → IsOff (set_policies (items ++ codes "none" ∷ rest) c).policy
unfolding set_policies
set_policies-none [] rest c = rw (streq_refl (codes "none")) (refl, refl, refl)
set_policies-none (item ∷ items) rest c =
    if-each {A = Configuration} (λ d. IsOff d.policy) _ _ _ (refl, refl, refl)
      (set_policies-none items rest (set_policy item c))

-- Where no item before it is "none", an item "none" switches off the CA check, the CRL check and the
-- check of signatures, whatever follows; without one, the CA check and the check of signatures are on
-- just where the list names them, or they were on before.
pub set_policies_iff :
    (items rest : List Bytes) (c : Configuration)
    → All (λ item. streq item (codes "none") ≡ false) items
    → IsOff (set_policies (items ++ codes "none" ∷ rest) c).policy
      × AsListed items c.policy (set_policies items c).policy
set_policies_iff items rest c h = (set_policies-none items rest c, set_policies-AsListed items c h)

-- The path of the module, and two options that only the file has.
abbrev kept : Configuration → Bytes × Bool × Bool
kept c = (c.pkcs11_modulepath, c.card_only, c.use_authok)

apply_changes-kept :
    (arg : Bytes) (changes : List (Bytes × (Configuration → Configuration))) (c : Configuration)
    → All (λ change. (d : Configuration) → kept (change.1 d) ≡ kept d) changes
    → kept (apply_changes arg changes c) ≡ kept c
unfolding apply_changes
apply_changes-kept arg [] c h = refl
apply_changes-kept arg ((name, change) ∷ rest) c (k, h) =
    apply_changes-kept arg rest (if contains arg name then change c else c) h
    ∙ if-each (λ d. kept d ≡ kept c) (contains arg name) (change c) c (k c) refl

set_argument_policy-kept :
    (arg : Bytes) (c : Configuration) → kept (set_argument_policy arg c) ≡ kept c
unfolding set_argument_policy
set_argument_policy-kept arg c = apply_changes-kept arg policy_changes c (
  (λ d. refl),
  ((λ d. refl), ((λ d. refl), ((λ d. refl), ((λ d. refl), ((λ d. refl), ((λ d. refl), tt)))))),
)

module _ (c : Configuration) where
  keep :
      (b : Bool) (x y : Configuration)
      → kept x ≡ kept c
      → kept y ≡ kept c
      → kept (if b then x else y) ≡ kept c
  keep = if-each (λ d. kept d ≡ kept c)

  set_value-kept : (conf : Scconf) (arg : Bytes) → kept (set_value conf arg c) ≡ kept c
  unfolding set_value
  set_value-kept conf arg = keep (contains arg (codes "pkcs11_module=")) _ _ refl (
      keep (contains arg (codes "slot_description=")) _ _ refl (
        keep (contains arg (codes "slot_num=")) _ _ refl (
          keep (contains arg (codes "ca_dir=")) _ _ refl (
            keep (contains arg (codes "crl_dir=")) _ _ refl (
              keep (contains arg (codes "nss_dir=")) _ _ refl (
                keep (contains arg (codes "cert_policy=")) _ _ (set_argument_policy-kept arg c)
                  (keep (contains arg (codes "token_type=")) _ _ refl refl)))))))

set_argument-kept :
    (conf : Scconf) (arg : Bytes) (c : Configuration) → kept (set_argument conf arg c) ≡ kept c
unfolding set_argument
set_argument-kept conf arg c = ground (arith, set_value-kept c conf arg)

set_arguments-kept :
    (conf : Scconf) (args : List Bytes) (c : Configuration)
    → kept (set_arguments conf args c) ≡ kept c
unfolding set_arguments
set_arguments-kept conf [] c = refl
set_arguments-kept conf (arg ∷ args) c =
    set_arguments-kept conf args (set_argument conf arg c) ∙ set_argument-kept conf arg c

-- The path of the PKCS #11 module, `card_only` and `use_authok` are as the file sets them: no
-- argument changes them, "pkcs11_module=" among them, but for the name of the file.
pub pk_configure-kept :
    (conf : Scconf) (argv : List Bytes) (c : Configuration)
    → let result = pk_configure conf argv c in
      let from_file = parse_config_file conf (set_config_file argv c) in
      (result.pkcs11_modulepath ≡ from_file.pkcs11_modulepath)
      × (result.card_only ≡ from_file.card_only)
      × (result.use_authok ≡ from_file.use_authok)
unfolding pk_configure
pk_configure-kept conf argv c =
    let e = set_arguments-kept conf argv (parse_config_file conf (set_config_file argv c)) in
    (ap (λ k. k.0) e, ap (λ k. k.1) e, ap (λ k. k.2) e)
