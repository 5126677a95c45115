-- ===== src/Tools/CardEventmgr/Ends.antt =====
-- When the loop of tools/card_eventmgr.c ends.
use pam_pkcs.Base.{
  ℕ, ◌≡◌, ◌⊎◌, inl, inr, refl, ap, ◌∙◌, arith, true, false, List, [], ◌∷◌, some, Bytes,
}
use pam_pkcs.Tools.CardEventmgr.{
  Tick, Shell, scans, polls, ended, Watch, split_names, end, poll, scan, go_on, step, run, listed,
}

-- Nothing changes with the readers, there is one at least, and the program was told to end.
pub record IsKilled (size : ℕ) (t : Tick) : Type 0 where
  pub sizes : (t.scan_size ≡ size) × (t.list_size ≡ size)
  pub names :
      (name : Bytes) × (names : List Bytes) × (split_names false t.scan_bytes ≡ some (name ∷ names))
  pub killed : t.kill ≡ true

-- The program looks for readers, or for events.
abbrev pub IsRunning : Watch → Type 0
IsRunning w = (w.phase ≡ scans) ⊎ (w.phase ≡ polls)

module _ (shell : Shell) where
  run-ended : (ticks : List Tick) (w : Watch) → w.phase ≡ ended → (run shell ticks w).phase ≡ ended
  unfolding run step
  run-ended [] w e = e
  run-ended (t ∷ ticks) w e =
      run-ended ticks (step shell t w) (ap (λ v. v.phase) (ap (λ p. go_on shell p t w) e) ∙ e)

  scan-killed :
      (size : ℕ) (t : Tick) (w : Watch)
      → IsKilled size t
      → ((scan t w).phase ≡ polls) × ((scan t w).readers_old ≡ size)
  unfolding scan listed
  scan-killed size t w k = let (name, names, e) = k.names in rw e (refl, k.sizes.0)

  poll-killed :
      (size : ℕ) (t : Tick) (w : Watch)
      → IsKilled size t
      → ((poll shell t w).phase ≡ ended) ⊎ ((poll shell t w).phase ≡ scans)
  unfolding poll end
  poll-killed size t w k = ground (arith, k.killed)

  poll-ends :
      (size : ℕ) (t : Tick) (w : Watch)
      → IsKilled size t
      → w.readers_old ≡ size
      → (poll shell t w).phase ≡ ended
  unfolding poll end
  poll-ends size t w k e = ground (arith, k.killed, k.sizes, e)

  step-scans : (t : Tick) (w : Watch) → w.phase ≡ scans → step shell t w ≡ scan t w
  unfolding step
  step-scans t w e = ap (λ p. go_on shell p t w) e

  step-polls : (t : Tick) (w : Watch) → w.phase ≡ polls → step shell t w ≡ poll shell t w
  unfolding step
  step-polls t w e = ap (λ p. go_on shell p t w) e

  -- From the scan of the readers two steps are enough.
  scans-ends :
      (size : ℕ) (t s : Tick) (ticks : List Tick) (w : Watch)
      → IsKilled size t
      → IsKilled size s
      → w.phase ≡ scans
      → (run shell (t ∷ s ∷ ticks) w).phase ≡ ended
  unfolding run
  scans-ends size t s ticks w kt ks e =
      let (p, o) = scan-killed size t w kt in
      ap (λ v. (run shell ticks (step shell s v)).phase) (step-scans t w e)
      ∙ run-ended ticks (step shell s (scan t w))
          (ap (λ v. v.phase) (step-polls s (scan t w) p) ∙ poll-ends size s (scan t w) ks o)

  -- Once the program was told to end, and there is a reader and the list of readers no longer changes,
  -- three steps are enough for it to end, from the scan of the readers or the loop over the events.
  pub run_ends :
      (size : ℕ) (t s r : Tick) (ticks : List Tick) (w : Watch)
      → IsKilled size t
      → IsKilled size s
      → IsKilled size r
      → IsRunning w
      → (run shell (t ∷ s ∷ r ∷ ticks) w).phase ≡ ended
  unfolding run
  run_ends size t s r ticks w kt ks kr (inl e) = scans-ends size t s (r ∷ ticks) w kt ks e
  run_ends size t s r ticks w kt ks kr (inr e) = elim (poll-killed size t w kt) [
    | inl f ↦ run-ended (s ∷ r ∷ ticks) (step shell t w) (ap (λ v. v.phase) (step-polls t w e) ∙ f)
    | inr f ↦
        scans-ends size s r ticks (step shell t w) ks kr (ap (λ v. v.phase) (step-polls t w e) ∙ f)
  ]
