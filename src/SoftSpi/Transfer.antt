-- ===== src/SoftSpi/Transfer.antt =====
-- The buffers of src/soft_spi.rs, on four wires.
use mathlib.Core.List.{append-nil, append_assoc}
use f1c100s_rs.Base.{
  ℕ, zero, suc, ◌+◌, ◌<◌, ◌≡◌, ◌∙◌, refl, sym, ap, Bool, false, ◌&&◌, max, List, [], ◌++◌, ltb, leb,
  if◌then◌else◌, update, arith, ◌==◌, ==_iff, Bool-cases, inl, inr, subst,
}
use f1c100s_rs.Io.{ok, Slice}
use f1c100s_rs.SoftSpi.{
  SoftSpiConfig, Gpio, cpha, cpol, is_3wire, tx_byte, transfer_byte, any_byte, transfer_from,
  transfer,
}
use f1c100s_rs.SoftSpi.Slave.{Line, IsWired, resting}
use f1c100s_rs.SoftSpi.Byte.{digits, transfer_byte-Shifts}

-- The bits of `n` bytes from `i` on.
abbrev pub bits : (n i : ℕ) → (ℕ → ℕ) → List Bool
bits zero i bytes = []
bits (suc n) i bytes = digits 8 (bytes i) ++ bits n (i + 1) bytes

-- The buffer once the bytes from `i` on, `n` of them, have come in.
abbrev pub received : (n i rx_len : ℕ) → (bytes rx : ℕ → ℕ) → ℕ → ℕ
received n i rx_len bytes rx j = if leb i j && ltb j (i + n) && ltb j rx_len then bytes j else rx j

received-first :
    (n i rx_len : ℕ) (bytes rx : ℕ → ℕ) (j : ℕ)
    → received n (i + 1) rx_len bytes (if ltb i rx_len then update rx i (bytes i) else rx) j
      ≡ received (suc n) i rx_len bytes rx j
received-first n i rx_len bytes rx j =
    let Same : ℕ → Type 0 = λ k.
      received n (i + 1) rx_len bytes (if ltb i rx_len then update rx i (bytes i) else rx) k
      ≡ received (suc n) i rx_len bytes rx k in
    elim (Bool-cases (j == i)) [
      | inl here ↦
          let at_i : Same i = elim (Bool-cases (ltb i rx_len)) [
            | inl room ↦ rw room (ground arith)
            | inr full ↦ rw full (ground arith)
          ] in
          subst Same (sym ((==_iff j i).0 here)) at_i
      | inr other ↦ elim (Bool-cases (ltb i rx_len)) [
        | inl room ↦ rw (room, other) (ground (arith, other))
        | inr full ↦ rw full (ground (arith, other))
      ]
    ]

module _ {S : Type 0} (gpio : Gpio S) (cfg : SoftSpiConfig) (line : S → Line)
    (wired : IsWired gpio cfg line) (four : is_3wire cfg ≡ false) where
  abbrev at_rest : (level old : Bool) → (heard bits : List Bool) → Line
  at_rest = resting (cpha (cfg.mode)) (cpol (cfg.mode))

  any_byte-four : (byte : ℕ) (s : S) → any_byte gpio cfg byte s ≡ transfer_byte gpio cfg byte s
  unfolding any_byte
  any_byte-four byte s = rw four refl

  transfer_from-Shifts :
      (n i : ℕ) (tx : Slice) (rx_len : ℕ) (rx bytes : ℕ → ℕ) (old_level old : Bool)
      (heard rest : List Bool) (s : S)
      → ((j : ℕ) → bytes j < 256)
      → line s ≡ at_rest old_level old heard (bits n i bytes ++ rest)
      → (s' : S) × (rx' : ℕ → ℕ) × (level : Bool) × (last : Bool) × (transfer_from gpio cfg n i tx
            rx_len rx s
          ≡ ok rx' s')
        × ((j : ℕ) → rx' j ≡ received n i rx_len bytes rx j)
        × (line s' ≡ at_rest level last (heard ++ bits n i (tx_byte tx)) rest)
  unfolding transfer_from
  transfer_from-Shifts zero i tx rx_len rx bytes old_level old heard rest s small at =
      (s, rx, old_level, old, refl, (λ j. ground arith), rw (append-nil heard) at)
  transfer_from-Shifts (suc n) i tx rx_len rx bytes old_level old heard rest s small at =
      let byte = tx_byte tx i in
      let first =
        at
        ∙ ap (at_rest old_level old heard)
            (append_assoc (digits 8 (bytes i)) (bits n (i + 1) bytes) rest) in
      let (s1, level1, last1, ran, l1) =
        transfer_byte-Shifts gpio cfg line wired byte (bytes i) old_level old heard
          (bits n (i + 1) bytes ++ rest) s (small i) first in
      let rx1 = if ltb i rx_len then update rx i (bytes i) else rx in
      let (s', rx', level', last', ran', got, l') =
        transfer_from-Shifts n (i + 1) tx rx_len rx1 bytes level1 last1 (heard ++ digits 8 byte)
          rest s1 small l1 in
      let here = any_byte-four byte s ∙ ran in
      (
        s',
        rx',
        level',
        last',
        rw here ran',
        (λ j. got j ∙ received-first n i rx_len bytes rx j),
        l'
            ∙ ap (λ (t : List Bool). at_rest level' last' t rest)
                (append_assoc heard (digits 8 byte) (bits n (i + 1) (tx_byte tx))),
      )

  -- On four wires, `transfer` sends the bytes of the buffer, with zeros behind its end, for as many
  -- bytes as the longer buffer has, and stores those that the slave gives as far as its buffer
  -- reaches.
  pub transfer-Shifts :
      (tx : Slice) (rx_len n : ℕ) (rx bytes : ℕ → ℕ) (old_level old : Bool) (heard rest : List Bool)
      (s : S)
      → n ≡ max (tx.len) rx_len
      → ((j : ℕ) → bytes j < 256)
      → line s ≡ at_rest old_level old heard (bits n 0 bytes ++ rest)
      → (s' : S) × (rx' : ℕ → ℕ) × (level : Bool) × (last : Bool) × (transfer gpio cfg tx rx_len rx
            s
          ≡ ok rx' s')
        × ((j : ℕ) → rx' j ≡ (if ltb j rx_len then bytes j else rx j))
        × (line s' ≡ at_rest level last (heard ++ bits n 0 (tx_byte tx)) rest)
  unfolding transfer
  transfer-Shifts tx rx_len n rx bytes old_level old heard rest s longer small at =
      let (s', rx', level, last, ran, got, l) =
        transfer_from-Shifts n 0 tx rx_len rx bytes old_level old heard rest s small at in
      let count : n ≡ (if ltb (tx.len) rx_len then rx_len else tx.len) = ground arith in
      let all : (j : ℕ)
          → received n 0 rx_len bytes rx j ≡ (if ltb j rx_len then bytes j else rx j) =
        λ j. elim (Bool-cases (ltb j rx_len)) [
          | inl room ↦ rw room (ground arith)
          | inr full ↦ rw full (ground arith)
        ] in
      (
        s',
        rx',
        level,
        last,
        ap (λ (k : ℕ). transfer_from gpio cfg k 0 tx rx_len rx s) (sym count) ∙ ran,
        (λ j. got j ∙ all j),
        l,
      )
