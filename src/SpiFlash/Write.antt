-- ===== src/SpiFlash/Write.antt =====
-- `page_program` and `write` of src/spi_flash.rs on a flash memory.
use f1c100s_rs.Base.{
  ℕ, zero, suc, ◌+◌, ◌-◌, ◌*◌, ◌/◌, ◌%◌, ◌^◌, ◌≤◌, ◌<◌, ◌≡◌, refl, ap, ◌∙◌, Bool, true, false, [],
  ◌∷◌, ◌&&◌, ltb, leb, ◌==◌, ==_iff, lt→ltb, ge→ltb, lt_or_ge, Bool-cases, inl, inr, eq→==, arith,
  min,
}
use f1c100s_rs.Bits.{bit_and, shr32, u32_mod}
use f1c100s_rs.Io.{ok, Slice}
use f1c100s_rs.Mmio.Fields.{bit_and-ones}
use f1c100s_rs.SpiFlash.{
  SpiBus, with_addr, part, chunk_len, wait_busy, write_enable, page_program, write_from, write,
}
use f1c100s_rs.SpiFlash.Chip.{IsChip, programmed, written}

-- The bytes of the address.
with_addr_lem :
    (cmd addr : ℕ)
    → with_addr cmd addr ≡ cmd ∷ (addr / 65536 % 256) ∷ (addr / 256 % 256) ∷ (addr % 256) ∷ []
unfolding with_addr shr32
with_addr_lem cmd addr =
    let high = bit_and-ones (addr / 2 ^ 16) 8 in
    let mid = bit_and-ones (addr / 2 ^ 8) 8 in
    let low = bit_and-ones addr 8 in λ i. cmd ∷ high i ∷ mid i ∷ low i ∷ []

chunk_len_lem : (addr left : ℕ) → chunk_len addr left ≡ min (256 - addr % 256) left
unfolding chunk_len
chunk_len_lem addr left = ap (λ r. min (256 - r) left) (bit_and-ones addr 8)

-- A chunk that ends in its page is not wrapped.
programmed-written :
    (f : ℕ → ℕ) (addr : ℕ) (bytes : Slice) (x : ℕ)
    → bytes.len + addr % 256 ≤ 256
    → programmed f addr bytes x ≡ written f addr bytes x
unfolding programmed written
programmed-written f addr bytes x fits = elim (lt_or_ge x addr) [
  | inl below ↦
      let out : (x / 256 == addr / 256 && ltb ((x % 256 + 256 - addr % 256) % 256) bytes.len)
          ≡ false =
        elim (Bool-cases (x / 256 == addr / 256)) [
          | inl page ↦
              let e = (==_iff (x / 256) (addr / 256)).0 page in
              rw (page, ge→ltb ((x % 256 + 256 - addr % 256) % 256) bytes.len (omega arith)) refl
          | inr other ↦ rw other refl
        ] in
      let no : leb addr x ≡ false = ground arith in rw (out, no) refl
  | inr above ↦
      let yes : leb addr x ≡ true = ground arith in
      elim (lt_or_ge x (addr + bytes.len)) [
        | inl inside ↦
            let page : (x / 256 == addr / 256) ≡ true =
              eq→== (x / 256) (addr / 256) (omega arith) in
            let at : (x % 256 + 256 - addr % 256) % 256 ≡ x - addr = omega arith in
            rw
              (
                page,
                at,
                yes,
                lt→ltb (x - addr) bytes.len (omega arith),
                lt→ltb x (addr + bytes.len) inside,
              )
              refl
        | inr past ↦
            let out : (x / 256 == addr / 256 && ltb ((x % 256 + 256 - addr % 256) % 256) bytes.len)
                ≡ false =
              elim (Bool-cases (x / 256 == addr / 256)) [
                | inl page ↦
                    let e = (==_iff (x / 256) (addr / 256)).0 page in
                    rw (page, ge→ltb ((x % 256 + 256 - addr % 256) % 256) bytes.len (omega arith))
                      refl
                | inr other ↦ rw other refl
              ] in
            rw (out, yes, ge→ltb x (addr + bytes.len) past) refl
      ]
]

-- Writing the first bytes and then the rest.
written-written :
    (f g : ℕ → ℕ) (addr c offset : ℕ) (bytes : Slice) (x : ℕ)
    → offset + c ≤ bytes.len
    → g x ≡ written f (addr + offset) (part bytes offset c) x
    → written g (addr + (offset + c)) (part bytes (offset + c) (bytes.len - (offset + c))) x
      ≡ written f (addr + offset) (part bytes offset (bytes.len - offset)) x
unfolding written
written-written f g addr c offset bytes x fits e = elim (lt_or_ge x (addr + (offset + c))) [
  | inl before ↦
      let out : leb (addr + (offset + c)) x ≡ false = ground arith in
      rw out (e ∙ ground (arith, before))
  | inr after ↦
      let same : g x ≡ f x = e ∙ ground (arith, after) in
      let at : offset + c + (x - (addr + (offset + c))) ≡ offset + (x - (addr + offset)) =
        omega arith in
      rw (same, at) (ground (arith, after))
]

written-whole :
    (f : ℕ → ℕ) (addr : ℕ) (bytes : Slice) (x : ℕ)
    → written f (addr + 0) (part bytes 0 (bytes.len - 0)) x ≡ written f addr bytes x
unfolding written
written-whole f addr bytes x =
    let a : addr + 0 ≡ addr = omega arith in
    let l : bytes.len - 0 ≡ bytes.len = omega arith in
    let i : 0 + (x - addr) ≡ x - addr = omega arith in rw (a, l, i) refl

module _ {S : Type 0} (bus : SpiBus S) (cells : S → ℕ → ℕ) (latch : S → Bool) (busy : S → ℕ)
    (limit : ℕ) (chip : IsChip bus cells latch busy limit) where
  wait_busy_lem :
      (n : ℕ) (s : S)
      → busy s < n
      → (s' : S) × (wait_busy bus n s ≡ ok tt s') × (cells s' ≡ cells s) × (busy s' ≡ 0)
  unfolding wait_busy
  wait_busy_lem zero s h = absurd (omega arith)
  wait_busy_lem (suc n) s h =
      let (s', rx, got, flag, same, less) = chip.reports s in
      elim (Bool-cases (busy s == 0)) [
        | inl idle ↦
            let clear : bit_and (rx 1) 1 ≡ 0 = flag ∙ rw idle refl in
            (s', rw (got, clear) refl, same, ground (arith, idle))
        | inr working ↦
            let set : bit_and (rx 1) 1 ≡ 1 = flag ∙ rw working refl in
            let (s'', rest, same', idle) = wait_busy_lem n s' (ground (arith, working)) in
            (s'', rw (got, set) rest, same' ∙ same, idle)
      ]

  page_program_lem :
      (rounds addr : ℕ) (bytes : Slice) (s : S)
      → addr < 2 ^ 24
      → bytes.len ≤ 256
      → limit < rounds
      → busy s ≡ 0
      → (s' : S) × (page_program bus rounds addr bytes s ≡ ok tt s')
        × ((x : ℕ) → cells s' x ≡ programmed (cells s) addr bytes x)
        × (busy s' ≡ 0)
  unfolding page_program write_enable
  page_program_lem rounds addr bytes s range fits enough idle =
      let (s1, enabled, same1, latched, idle1) = chip.enables s idle in
      let (s2, sent, cells2, work) =
        chip.programs (addr / 65536 % 256) (addr / 256 % 256) (addr % 256) bytes s1 (omega arith)
          (omega arith) (omega arith) fits latched idle1 in
      let (s3, waited, same3, idle3) = wait_busy_lem rounds s2 (omega arith) in
      let whole : addr / 65536 % 256 * 65536 + addr / 256 % 256 * 256 + addr % 256 ≡ addr =
        omega arith in
      (
        s3,
        rw (ge→ltb 256 bytes.len fits, enabled, with_addr_lem 0x02 addr, sent) waited,
        λ x. (λ i. same3 i x) ∙ cells2 x ∙ (λ i. programmed (same1 i) (whole i) bytes x),
        idle3,
      )

  write_from_lem :
      (n rounds addr : ℕ) (bytes : Slice) (offset : ℕ) (s : S)
      → bytes.len ≤ offset + n
      → offset ≤ bytes.len
      → addr + bytes.len ≤ 2 ^ 24
      → limit < rounds
      → busy s ≡ 0
      → (s' : S) × (write_from bus n rounds addr bytes offset s ≡ ok tt s')
        × ((x : ℕ)
            → cells s' x
              ≡ written (cells s) (addr + offset) (part bytes offset (bytes.len - offset)) x)
        × (busy s' ≡ 0)
  unfolding write_from written
  write_from_lem zero rounds addr bytes offset s h le range enough idle =
      (s, rw (ge→ltb offset bytes.len (omega arith)) refl, λ x. ground arith, idle)
  write_from_lem (suc n) rounds addr bytes offset s h le range enough idle =
      elim (lt_or_ge offset bytes.len) [
        | inr end ↦ (s, rw (ge→ltb offset bytes.len end) refl, λ x. ground (arith, end), idle)
        | inl more ↦
            let small : (addr + offset) % u32_mod ≡ addr + offset = omega arith in
            let c = chunk_len ((addr + offset) % u32_mod) (bytes.len - offset) in
            let size : c ≡ min (256 - (addr + offset) % 256) (bytes.len - offset) =
              chunk_len_lem ((addr + offset) % u32_mod) (bytes.len - offset)
              ∙ ap (λ a. min (256 - a % 256) (bytes.len - offset)) small in
            let (s1, paged, cells1, idle1) =
              page_program_lem rounds (addr + offset) (part bytes offset c) s (omega arith)
                (omega arith) enough idle in
            let paged' : page_program bus rounds ((addr + offset) % u32_mod) (part bytes offset c) s
                ≡ ok tt s1 =
              ap (λ a. page_program bus rounds a (part bytes offset c) s) small ∙ paged in
            let (s2, rest, cells2, idle2) =
              write_from_lem n rounds addr bytes (offset + c) s1 (omega arith) (omega arith) range
                enough idle1 in
            (
              s2,
              rw (lt→ltb offset bytes.len more, paged') rest,
              λ x.
                  cells2 x
                  ∙ written-written (cells s) (cells s1) addr c offset bytes x (omega arith) (
                      cells1 x
                      ∙ programmed-written (cells s) (addr + offset) (part bytes offset c) x
                          (omega arith)),
              idle2,
            )
      ]

  -- `write` ends on an idle chip, where the address range lies in the 24 bits of an address and
  -- the rounds of a status poll are more than the chip is ever busy. Then the bytes are in their
  -- cells, as far as a program command can bring them there, and the other cells are unchanged.
  pub write-written :
      (rounds addr : ℕ) (bytes : Slice) (s : S)
      → addr + bytes.len ≤ 2 ^ 24
      → limit < rounds
      → busy s ≡ 0
      → (s' : S) × (write bus rounds addr bytes s ≡ ok tt s')
        × ((x : ℕ) → cells s' x ≡ written (cells s) addr bytes x)
        × (busy s' ≡ 0)
  unfolding write
  write-written rounds addr bytes s range enough idle =
      let (s', done, cells', idle') =
        write_from_lem bytes.len rounds addr bytes 0 s (omega arith) (omega arith) range enough
          idle in
      (s', done, λ x. cells' x ∙ written-whole (cells s) addr bytes x, idle')
