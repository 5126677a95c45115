-- ===== src/Tests/Settings.antt =====
-- Runs of the configuration and of the loop that watches the card, on small inputs.
use pam_pkcs.Base.{
  ℕ, ◌%◌, is_some, length, sym, if◌then◌else◌, ◌<◌, inl, ◌≡◌, ◌≢◌, ◌↔◌, refl, subst, arith, true,
  false, List, [], ◌∷◌, ◌++◌, none, some, Bytes,
}
use mathlib.Core.Option.{some-injective}
use pam_pkcs.Base.Int.{pos}
use pam_pkcs.Base.Cstr.{codes, streq, strstr}
use pam_pkcs.Uri.{contains}
use pam_pkcs.CertVfy.{verify_certificate}
use pam_pkcs.Pam.Config.{set_config_file, Block, Scconf, configuration, set_policies, pk_configure}
use pam_pkcs.Pam.Config.Policy.{module_name, pk_configure-verify_certificate}
use pam_pkcs.Pam.Config.Items.{IsOff, AsListed, set_policies_iff}
use pam_pkcs.Tools.Eventmgr.{
  onerror_quit, on_error, on_error_of, card_remove, EventBlock, Setup, Round, Watch, loops, watch,
  start,
}
use pam_pkcs.Tools.Eventmgr.Reports.{card_events, watch-turns}
use pam_pkcs.Uri.Generic.{parse_generic_uri}
use pam_pkcs.Uri.Generic.Roundtrip.{IsPart, uri_text, authority_of, parse_generic_uri_lem}
use pam_pkcs.Strings.Hex.{bin2hex, strip_colon, hex2bin}
use pam_pkcs.Strings.Hex.Access.{hex2bin_iff}
use pam_pkcs.Mappers.Generic.{GenericSettings, generic_defaults}
use pam_pkcs.Tests.{ossl}

abbrev root : Block
root = record {
  get_bool = λ k. none;
  get_int = λ k. none;
  get_str = λ k. none;
  find_list = λ k. [];
}

-- A file with two modules. The block of the one that is used asks for checks, and leaves the slot to an
-- argument; the block of the other one gives a slot.
abbrev module_block : Block
module_block = record root { find_list = λ k. codes "ca" ∷ codes "signature" ∷ [] }

abbrev other_block : Block
other_block = record root { get_int = λ k. some (pos 1) }

abbrev used_root : Block
used_root = record root {
  get_str = λ k. if streq k (codes "use_pkcs11_module") then some (codes "nss") else none;
}

abbrev conf : Scconf
conf = record {
  new = λ f. true;
  is_parsed = λ f. true;
  root = λ f. some used_root;
  modules = λ f n. some (if streq n (codes "nss") then module_block else other_block);
  sscanf = λ a. some (pos 1);
}

abbrev argv : List Bytes
argv = codes "slot_num=1" ∷ []

pk_configure-verify_certificate_example :
    let c = pk_configure conf argv (configuration (codes "/etc")) in
    (c.policy.signature_policy ≡ false) × (verify_certificate ossl 7 c.policy ≡ pos 1)
unfolding contains strstr streq set_config_file
pk_configure-verify_certificate_example =
    pk_configure-verify_certificate ossl conf argv (codes "/etc") 7
      (λ r b e f.
        subst
          (λ k.
            (k.get_str (codes "slot_description") ≡ none) × (k.get_int (codes "slot_num") ≡ none))
          (some-injective module_block b (
            subst
              (λ k.
                conf.modules (codes "/etc/pam_pkcs11.conf")
                  (module_name k (configuration (codes "/etc")))
                ≡ some b)
              (sym (some-injective used_root r e)) f))
          (refl, refl))
      (refl, tt)

abbrev items : List Bytes
items = codes "ca" ∷ codes "crl_auto" ∷ []

set_policies_iff_example :
    IsOff (set_policies (items ++ codes "none" ∷ items) (configuration (codes "/etc"))).policy
    × AsListed items
        (configuration (codes "/etc")).policy
        (set_policies items (configuration (codes "/etc"))).policy
unfolding streq
set_policies_iff_example =
    set_policies_iff items items (configuration (codes "/etc")) (refl, (refl, tt))

abbrev lock : EventBlock
lock = record { on_error = none; actions = codes "lock" ∷ [] }

abbrev setup : Setup
setup = record {
  polling_time = 1;
  expire_time = 0;
  find_block = λ e. some lock;
  my_system = λ cs c. pos 0;
}

abbrev with_tokens : List Round
with_tokens =
    record { list_rv = 0; num_tokens = 0; finalize_rv = 0; initialize_rv = 0 }
    ∷ record { list_rv = 0; num_tokens = 1; finalize_rv = 0; initialize_rv = 0 }
    ∷ record { list_rv = 0; num_tokens = 0; finalize_rv = 0; initialize_rv = 0 }
    ∷ []

watch-turns_example :
    (w : Watch) × (watch setup with_tokens start ≡ loops w)
    × (card_events w.events ≡ card_remove ∷ [])
unfolding on_error_of streq
watch-turns_example =
    watch-turns setup
      (λ event block e.
        subst (λ k. on_error k ≢ onerror_quit) (some-injective lock block e)
          (λ q. ground (arith, q)))
      with_tokens ((refl, refl, refl), ((refl, refl, refl), ((refl, refl, refl), tt)))

no_colon : (c : ℕ) → 64 < c → c ≢ b':'
no_colon c l e = absurd (omega (arith, l, e))

part : (c : ℕ) → 64 < c → IsPart c
part c l = (
  (λ e. absurd (omega (arith, l, e))),
  (λ e. absurd (omega (arith, l, e))),
  (λ e. absurd (omega (arith, l, e))),
)

-- http://u:p@h:i/x
parse_generic_uri_lem_example :
    parse_generic_uri (
      uri_text
        (codes "http")
        (authority_of (codes "h") (some (codes "i")) (some (codes "u")) (some (codes "p")))
        b'/'
        (codes "x"))
    ≡ some (record {
      protocol = codes "http";
      host = some (codes "h");
      port = some (codes "i");
      path = codes "/x";
      user = some (codes "u");
      password = some (codes "p");
    })
parse_generic_uri_lem_example =
    parse_generic_uri_lem (codes "http") (codes "x") (codes "h") b'/' (some (codes "i"))
      (some (codes "u")) (some (codes "p"))
      (
        no_colon b'h' (omega arith),
        (
          no_colon b't' (omega arith),
          (no_colon b't' (omega arith), (no_colon b'p' (omega arith), tt)),
        ),
      )
      (part b'h' (omega arith), tt) (no_colon b'h' (omega arith), tt) (part b'i' (omega arith), tt)
      (
        (part b'u' (omega arith), tt),
        (no_colon b'u' (omega arith), tt),
        (part b'p' (omega arith), tt),
      )
      (inl refl)

abbrev generic : GenericSettings
generic = record generic_defaults { ignorecase = true }

bin2hex_test : bin2hex (255 ∷ 10 ∷ []) ≡ codes "FF:0A"
unfolding bin2hex
bin2hex_test = refl

hex2bin_iff_example :
    (is_some (hex2bin (λ s. some 10) (codes ":0A:0A")) ≡ true)
    ↔ (length (strip_colon (codes ":0A:0A")) % 3 ≡ 0)
hex2bin_iff_example = hex2bin_iff (λ s. some 10) (codes ":0A:0A")
