-- ===== src/Pam/Token/LastLook.antt =====
-- The last look for a token of pam_pkcs11/pam_pkcs11.c, after the user name was asked for.
use pam_pkcs.Base.{◌≡◌, false, arith, List, Option, none, some, Bytes, inl, inr, Option-cases}
use pam_pkcs.Pkcs11.Slots.{
  Slot, find_slot_by_number_and_label, find_slot_by_slotlabel_and_tokenlabel,
}
use pam_pkcs.Pam.World.{authinfo_unavail, Config, Env, World, stop}
use pam_pkcs.Pam.Token.{find_slot, find_any_slot, no_token, from_last_look, find_token}

find_any_slot-find_slot :
    (cfg : Config) (slots : List Slot) → find_any_slot cfg slots ≡ find_slot cfg slots none
unfolding find_any_slot find_slot find_slot_by_number_and_label
    find_slot_by_slotlabel_and_tokenlabel
find_any_slot-find_slot cfg slots = elim (Option-cases cfg.slot_description) [
  | inl e ↦ ground (arith, e)
  | inr (d, e) ↦ ground (arith, e)
]

-- Where no token was found at first, no token name is known and the module is not to wait, it stops
-- with PAM_AUTHINFO_UNAVAIL whether or not a user name is known: the last look, at the slot table
-- that the first one has read, finds nothing either.
pub find_token-last_look :
    {X509 Block : Type 0} (env : Env X509 Block) (cfg : Config) (user : Option Bytes)
    (w : World X509)
    → env.login_token_name ≡ none
    → cfg.wait_for_card ≡ false
    → find_slot cfg env.slots none ≡ none
    → (find_token env cfg user w).0 ≡ stop authinfo_unavail
unfolding find_token no_token from_last_look
find_token-last_look env cfg none w t f s =
    ground (arith, t, f, s, find_any_slot-find_slot cfg env.slots)
find_token-last_look env cfg (some u) w t f s = ground (arith, t, f, s)
