-- ===== src/Uart/Sends.antt =====
-- The bytes that src/uart.rs sends.
use mathlib.Core.List.{append-nil, append_assoc}
use f1c100s_rs.Base.{
  ℕ, zero, suc, ◌+◌, ◌<◌, ◌≡◌, ◌⊎◌, ◌∙◌, refl, sym, ap, not, List, [], ◌∷◌, ◌++◌, ◌==◌, Bool-cases,
  true, if◌then◌else◌, eq→==, inl, inr, arith,
}
use f1c100s_rs.Bits.{bit_and}
use f1c100s_rs.Io.{ok, Slice}
use f1c100s_rs.Uart.{wait_until, tx_ready, write_byte, write_from, write, rbr_thr_dll, usr}

-- A transmitter that has room again after fewer than `rounds` reads of its status: `left` says how
-- many of them it still takes. A byte that is written while it has no room is lost.
pub record IsTransmitter {D : Type 0} (dev_read : ℕ → D → ℕ × D) (dev_write : ℕ → ℕ → D → D)
    (base rounds : ℕ) (sent : D → List ℕ) (left : D → ℕ) : Type 0 where
  pub reports :
      (d : D)
      → (val : ℕ) × (d' : D) × (dev_read (base + usr) d ≡ (val, d'))
        × ((not (bit_and val 2 == 0)) ≡ (left d == 0))
        × (sent d' ≡ sent d)
        × (((left d ≡ 0) × (left d' ≡ 0)) ⊎ (left d' < left d))
  pub takes :
      (val : ℕ) (d : D)
      → (sent (dev_write (base + rbr_thr_dll) val d)
          ≡ (if left d == 0 then sent d ++ (val ∷ []) else sent d))
        × (left (dev_write (base + rbr_thr_dll) val d) < rounds)

-- The bytes of a slice from `i` on.
abbrev pub bytes_from : (n i : ℕ) → Slice → List ℕ
bytes_from zero i bytes = []
bytes_from (suc n) i bytes = bytes.at i ∷ bytes_from n (i + 1) bytes

module _ {D : Type 0} (dev_read : ℕ → D → ℕ × D) (dev_write : ℕ → ℕ → D → D) (base rounds : ℕ)
    (sent : D → List ℕ) (left : D → ℕ)
    (uart : IsTransmitter dev_read dev_write base rounds sent left) where
  wait-ends :
      (n : ℕ) (d : D)
      → left d < n
      → (d' : D) × (wait_until dev_read dev_write base n (tx_ready dev_read dev_write base) d
          ≡ ok tt d')
        × (left d' ≡ 0)
        × (sent d' ≡ sent d)
  unfolding wait_until tx_ready
  wait-ends zero d in_time = absurd (omega arith)
  wait-ends (suc n) d in_time =
      let (val, d1, read, shows, kept, less) = uart.reports d in
      elim (Bool-cases (left d == 0)) [
        | inl room ↦
            let stays : left d1 ≡ 0 = elim less [
              | inl (_, none_left) ↦ none_left
              | inr lt ↦ absurd (ground (arith, room, lt))
            ] in
            (d1, rw (read, shows, room) refl, stays, kept)
        | inr full ↦
            let sooner : left d1 < n = elim less [
              | inl (none_left, _) ↦ absurd (ground (arith, full, none_left))
              | inr lt ↦ omega arith
            ] in
            let (d', ran, empty, kept') = wait-ends n d1 sooner in
            (d', rw (read, shows, full, ran) refl, empty, kept' ∙ kept)
      ]

  write_from-Sends :
      (n i : ℕ) (bytes : Slice) (d : D)
      → left d < rounds
      → (d' : D) × (write_from dev_read dev_write base n i rounds bytes d ≡ ok tt d')
        × (sent d' ≡ sent d ++ bytes_from n i bytes)
  unfolding write_from write_byte
  write_from-Sends zero i bytes d in_time = (d, refl, sym (append-nil (sent d)))
  write_from-Sends (suc n) i bytes d in_time =
      let (d1, waited, empty, kept) = wait-ends rounds d in_time in
      let d2 = dev_write (base + rbr_thr_dll) (bytes.at i) d1 in
      let (more, in_time') = uart.takes (bytes.at i) d1 in
      let room : (left d1 == 0) ≡ true = eq→== (left d1) 0 empty in
      let added : sent d2 ≡ sent d1 ++ (bytes.at i ∷ []) = rw room at more in
      let (d', ran, all) = write_from-Sends n (i + 1) bytes d2 in_time' in
      (
        d',
        rw (waited, ran) refl,
        all
            ∙ ap (λ (t : List ℕ). t ++ bytes_from n (i + 1) bytes)
                (added ∙ ap (λ (t : List ℕ). t ++ (bytes.at i ∷ [])) kept)
            ∙ append_assoc (sent d) (bytes.at i ∷ []) (bytes_from n (i + 1) bytes),
      )

  -- Where the transmitter loses what is written while it has no room, and has room after fewer
  -- reads of its status than the rounds given, `write` ends, and all of the bytes are sent, in
  -- their order, and nothing else.
  pub write-Sends :
      (bytes : Slice) (d : D)
      → left d < rounds
      → (d' : D) × (write dev_read dev_write base rounds bytes d ≡ ok tt d')
        × (sent d' ≡ sent d ++ bytes_from bytes.len 0 bytes)
  unfolding write
  write-Sends bytes d in_time = write_from-Sends bytes.len 0 bytes d in_time
