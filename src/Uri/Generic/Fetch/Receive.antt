-- ===== src/Uri/Generic/Fetch/Receive.antt =====
-- The loop of `get_http`, of common/uri.c, that receives a response.
use pam_pkcs.Base.{
  ℕ, zero, suc, ◌+◌, ◌-◌, ◌<◌, ◌≤◌, ◌≡◌, ◌≢◌, refl, sym, ap, subst, ◌∙◌, arith, [], ◌∷◌, ◌++◌,
  Option, none, some, Bytes, length, take, drop, take-drop, length-drop, length-take_le,
  length-append, drop-append, append-nil, append_assoc,
}
use pam_pkcs.Uri.Generic.Fetch.{cut, whole, grow, recv_loop}

-- No more than `limit` bytes come.
abbrev pub StopsAt : ℕ → (ℕ → ℕ → Option Bytes) → Type 0
StopsAt limit recv =
    (len room c : ℕ) (s : Bytes) → recv len room ≡ some (c ∷ s) → len + length (c ∷ s) ≤ limit

-- The response comes in pieces, each of one byte at least and of no more than is asked for; then the
-- connection is closed.
pub record IsSending (response : Bytes) (recv : ℕ → ℕ → Option Bytes) : Type 0 where
  pub sends :
      (len room : ℕ)
      → len < length response
      → 0 < room
      → (k : ℕ) × (0 < k) × (k ≤ room) × (recv len room ≡ some (take k (drop len response)))
  pub closes : (len room : ℕ) → length response ≤ len → recv len room ≡ some []

-- Bytes come for ever, as many as are asked for at most.
abbrev pub IsEndless : (ℕ → ℕ → Option Bytes) → Type 0
IsEndless recv =
    (len room : ℕ)
    → 0 < room
    → (c : ℕ) × (s : Bytes) × (length (c ∷ s) ≤ room) × (recv len room ≡ some (c ∷ s))

-- There is room in the buffer after each round.
grow-lt : (len bufsize : ℕ) → 0 < bufsize → len ≤ bufsize → len < grow len bufsize
unfolding grow
grow-lt len bufsize p h = ground (arith, p, h)

module _ (recv : ℕ → ℕ → Option Bytes) where
  round :
      (fuel : ℕ) (buf : Bytes) (bufsize c : ℕ) (s : Bytes)
      → recv (length buf) (bufsize - length buf) ≡ some (c ∷ s)
      → recv_loop recv (suc fuel) buf bufsize
        ≡ recv_loop recv fuel (buf ++ c ∷ s) (grow (length (buf ++ c ∷ s)) bufsize)
  unfolding recv_loop
  round fuel buf bufsize c s e = rw (recv_loop, e) refl

  pub recv_loop-ne-cut :
      (limit fuel : ℕ) (buf : Bytes) (bufsize : ℕ)
      → StopsAt limit recv
      → length buf ≤ limit
      → limit < fuel + length buf
      → recv_loop recv fuel buf bufsize ≢ cut
  unfolding recv_loop
  recv_loop-ne-cut limit zero buf bufsize h b f = absurd (omega (arith, b, f))
  recv_loop-ne-cut limit (suc fuel) buf bufsize h b f =
      by_chunk (λ longer size. recv_loop-ne-cut limit fuel longer size h)
        (recv (length buf) (bufsize - length buf)) refl
    where
      by_chunk :
          ((longer : Bytes) (size : ℕ)
            → length longer ≤ limit
            → limit < fuel + length longer
            → recv_loop recv fuel longer size ≢ cut)
          → (o : Option Bytes) → recv (length buf) (bufsize - length buf) ≡ o
          → recv_loop recv (suc fuel) buf bufsize ≢ cut
      by_chunk k none e = rw (recv_loop, e) (λ q. cc)
      by_chunk k (some []) e = rw (recv_loop, e) (λ q. cc)
      by_chunk k (some (c ∷ s)) e =
          let n = length-append buf (c ∷ s) in
          rw (round fuel buf bufsize c s e) (
            k (buf ++ c ∷ s) (grow (length (buf ++ c ∷ s)) bufsize)
              (omega (arith, n, h (length buf) (bufsize - length buf) c s e)) (omega (arith, n, f)))

  -- No number of rounds is enough for a server that does not stop.
  pub recv_loop-endless :
      (fuel : ℕ) (buf : Bytes) (bufsize : ℕ)
      → IsEndless recv
      → length buf < bufsize
      → recv_loop recv fuel buf bufsize ≡ cut
  unfolding recv_loop
  recv_loop-endless zero buf bufsize h b = refl
  recv_loop-endless (suc fuel) buf bufsize h b =
      let (c, s, k, e) = h (length buf) (bufsize - length buf) (omega (arith, b)) in
      round fuel buf bufsize c s e
      ∙ recv_loop-endless fuel (buf ++ c ∷ s) (grow (length (buf ++ c ∷ s)) bufsize) h (
          grow-lt (length (buf ++ c ∷ s)) bufsize (omega (arith, b))
            (omega (arith, length-append buf (c ∷ s), k, b)))

  -- The pieces are put together to the response.
  pub recv_loop-whole :
      (fuel : ℕ) (buf rest : Bytes) (bufsize : ℕ)
      → IsSending (buf ++ rest) recv
      → length buf < bufsize
      → length rest < fuel
      → recv_loop recv fuel buf bufsize ≡ whole (buf ++ rest)
  unfolding recv_loop
  recv_loop-whole zero buf rest bufsize h b f = absurd (omega (arith, f))
  recv_loop-whole (suc fuel) buf [] bufsize h b f =
      let e = h.closes (length buf) (bufsize - length buf) (omega (arith, length-append buf [])) in
      rw (recv_loop, e) (ap whole (sym (append-nil buf)))
  recv_loop-whole (suc fuel) buf (c ∷ s) bufsize h b f =
      by_piece (λ longer other size. recv_loop-whole fuel longer other size)
        (h.sends (length buf) (bufsize - length buf) (omega (arith, length-append buf (c ∷ s)))
          (omega (arith, b)))
    where
      by_piece :
          ((longer other : Bytes) (size : ℕ)
            → IsSending (longer ++ other) recv
            → length longer < size
            → length other < fuel
            → recv_loop recv fuel longer size ≡ whole (longer ++ other))
          → (k : ℕ) × (0 < k)
            × (k ≤ bufsize - length buf)
            × (recv (length buf) (bufsize - length buf)
                ≡ some (take k (drop (length buf) (buf ++ c ∷ s))))
          → recv_loop recv (suc fuel) buf bufsize ≡ whole (buf ++ c ∷ s)
      by_piece go_on (zero, p, q, e) = absurd (omega (arith, p))
      by_piece go_on (suc k, p, q, e) =
          let piece = c ∷ take k s in
          let longer = buf ++ piece in
          let joined : longer ++ drop k s ≡ buf ++ c ∷ s =
            append_assoc buf piece (drop k s) ∙ ap (λ t. buf ++ c ∷ t) (take-drop k s) in
          round fuel buf bufsize c (take k s)
            (e ∙ ap (λ t. some (take (suc k) t)) (drop-append buf (c ∷ s)))
          ∙ go_on longer (drop k s) (grow (length longer) bufsize)
              (subst (λ r. IsSending r recv) (sym joined) h)
              (grow-lt (length longer) bufsize (omega (arith, b))
                (omega (arith, length-append buf piece, length-take_le k s, q, b)))
              (omega (arith, length-drop k s, f))
          ∙ ap whole joined
