-- ===== src/Tools/Options/Words.antt =====
-- The words "daemon" and "nodaemon" among the arguments of the event managers in tools.
use pam_pkcs.Base.{
  ◌≡◌, ap, ◌∙◌, arith, Bool, true, false, List, [], ◌∷◌, Option, some, Bytes, if◌then◌else◌,
  Option-cases, inl, inr,
}
use pam_pkcs.Base.Cstr.{codes, streq}
use pam_pkcs.Tools.Options.{
  Block, Scconf, set_all, behind_name, cfgfile_of, CardSettings, PollSettings, card_config,
  card_arg, card_defaults, card_parse_args, poll_config, poll_arg, poll_parse_args, card_items,
  poll_items, poll_defaults,
}

-- What the last of the two words says, and else what was there.
abbrev pub last_word : Bool → List Bytes → Bool
last_word before [] = before
last_word before (arg ∷ args) =
    last_word
      (if streq (codes "daemon") arg
        then true
        else if streq (codes "nodaemon") arg
        then false
        else before)
      args

set_all-last_word :
    {S : Type 0} (daemonize : S → Bool) (set_one : Bytes → S → Option S)
    → ((arg : Bytes) (s s1 : S)
        → set_one arg s ≡ some s1
        → daemonize s1 ≡ last_word (daemonize s) (arg ∷ []))
    → (args : List Bytes) (s s1 : S) → set_all set_one args s ≡ some s1
    → daemonize s1 ≡ last_word (daemonize s) args
unfolding set_all
set_all-last_word daemonize set_one one [] s s1 e = let k : s1 ≡ s = cc in ap daemonize k
set_all-last_word daemonize set_one one (arg ∷ args) s s1 e = elim (Option-cases (set_one arg s)) [
  | inl k ↦ absurd (ground (arith, k, e))
  | inr (s2, k) ↦
      set_all-last_word daemonize set_one one args s2 s1 (ground (arith, k, e))
      ∙ ap (λ b. last_word b args) (one arg s s2 k)
]

module _ (conf : Scconf) where
  card_arg-last_word :
      (arg : Bytes) (s s1 : CardSettings)
      → card_arg conf arg s ≡ some s1
      → s1.daemonize ≡ last_word s.daemonize (arg ∷ [])
  unfolding card_arg
  card_arg-last_word arg s s1 e = ground (arith, e)

  poll_arg-last_word :
      (arg : Bytes) (s s1 : PollSettings)
      → poll_arg conf arg s ≡ some s1
      → s1.daemonize ≡ last_word s.daemonize (arg ∷ [])
  unfolding poll_arg
  poll_arg-last_word arg s s1 e = ground (arith, e)

  -- Where card_eventmgr goes on behind its arguments, it becomes a daemon just where the last of the words
  -- "daemon" and "nodaemon" says so, and without them where the block of the file does.
  pub card_parse_args-last_word :
      (root : Block) (argv : List Bytes) (s : CardSettings)
      → conf.root (cfgfile_of conf.def_config_file argv) (codes "card_eventmgr") ≡ some root
      → card_parse_args conf argv ≡ some s
      → s.daemonize ≡ last_word (root.get_bool (codes "daemon") false) (behind_name argv)
  unfolding card_parse_args card_config
  card_parse_args-last_word root argv s e h =
      set_all-last_word (λ s. s.daemonize) (card_arg conf) card_arg-last_word (behind_name argv)
        (card_items root card_defaults) s (ground (arith, e, h))

  -- The same of pkcs11_eventmgr.
  pub poll_parse_args-last_word :
      (root : Block) (argv : List Bytes) (s : PollSettings)
      → conf.root (cfgfile_of conf.def_config_file argv) (codes "pkcs11_eventmgr") ≡ some root
      → poll_parse_args conf argv ≡ some s
      → s.daemonize ≡ last_word (root.get_bool (codes "daemon") false) (behind_name argv)
  unfolding poll_parse_args poll_config
  poll_parse_args-last_word root argv s e h =
      set_all-last_word (λ s. s.daemonize) (poll_arg conf) poll_arg-last_word (behind_name argv)
        (poll_items root poll_defaults) s (ground (arith, e, h))
