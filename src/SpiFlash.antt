-- ===== src/SpiFlash.antt =====
-- src/spi_flash.rs, on a bus with the calls of src/spi.rs that it makes. A received buffer is a
-- function from the index.
pub mod Chip
pub mod Write
use f1c100s_rs.Base.{
  ℕ, zero, suc, ◌+◌, ◌-◌, ◌%◌, min, Bool, true, false, not, List, [], ◌∷◌, ltb, ◌==◌, if◌then◌else◌,
}
use f1c100s_rs.Bits.{bit_and, shr32, u32_mod}
use f1c100s_rs.Io.{Io, ok, err, spins, panics, Call, ◌>>=◌, ◌>>◌, Slice}

-- `SpiError` has one constructor, and `From` makes it the error `spi`.
pub data FlashError : Type 0 where
  spi timeout too_large : FlashError

abbrev pub Flash : Type 0 → Type 0 → Type 0
Flash S A = Call S FlashError A

-- What the driver calls of a `Spi`; the length is the one of the receive buffer.
pub record SpiBus (S : Type 0) : Type 0 where
  pub xfer : List ℕ → ℕ → Flash S (ℕ → ℕ)
  pub xfer_send : List ℕ → Flash S (Unit {0})
  pub xfer_cmd_read : List ℕ → ℕ → Flash S (ℕ → ℕ)
  pub xfer_cmd_send : List ℕ → Slice → Flash S (Unit {0})

abbrev pub write_enable_cmd : ℕ
write_enable_cmd = 0x06

abbrev pub read_status_cmd : ℕ
read_status_cmd = 0x05

abbrev pub read_data_cmd : ℕ
read_data_cmd = 0x03

abbrev pub page_program_cmd : ℕ
page_program_cmd = 0x02

abbrev pub sector_erase_cmd : ℕ
sector_erase_cmd = 0x20

abbrev pub block_erase_32k_cmd : ℕ
block_erase_32k_cmd = 0x52

abbrev pub block_erase_64k_cmd : ℕ
block_erase_64k_cmd = 0xd8

abbrev pub chip_erase_cmd : ℕ
chip_erase_cmd = 0xc7

abbrev pub read_jedec_id_cmd : ℕ
read_jedec_id_cmd = 0x9f

abbrev pub read_unique_id_cmd : ℕ
read_unique_id_cmd = 0x4b

abbrev pub power_down_cmd : ℕ
power_down_cmd = 0xb9

abbrev pub release_power_down_cmd : ℕ
release_power_down_cmd = 0xab

-- The command and the three bytes of an address.
unfoldable pub with_addr : ℕ → ℕ → List ℕ
with_addr cmd addr =
    cmd ∷ bit_and (shr32 addr 16) 0xff ∷ bit_and (shr32 addr 8) 0xff ∷ bit_and addr 0xff ∷ []

-- `&data[offset..offset + len]`.
abbrev pub part : Slice → (offset len : ℕ) → Slice
part bytes offset len = record { at = λ i. bytes.at (offset + i); len = len }

-- How many of the `left` bytes go to the page of `page_addr`.
unfoldable pub chunk_len : (page_addr left : ℕ) → ℕ
chunk_len page_addr left = min (256 - bit_and page_addr 255) left

module _ {S : Type 0} (bus : SpiBus S) where
  -- `write_enable`.
  unfoldable pub write_enable : Flash S (Unit {0})
  write_enable = bus.xfer_send (write_enable_cmd ∷ [])

  -- `read_status`.
  unfoldable pub read_status : Flash S ℕ
  read_status = do rx ← bus.xfer (read_status_cmd ∷ 0 ∷ []) 2; ok (rx 1)

  -- `is_busy`.
  unfoldable pub is_busy : Flash S Bool
  unfolding read_status
  is_busy = do sr ← read_status; ok (not (bit_and sr 1 == 0))

  -- `wait_busy`, with at most `n` rounds.
  unfoldable pub wait_busy : ℕ → Flash S (Unit {0})
  unfolding read_status
  wait_busy zero s = spins
  wait_busy (suc n) s =
      let rest = wait_busy n in
      (read_status >>= (λ sr. if bit_and sr 1 == 0 then ok tt else rest)) s

  -- `read_jedec_id`.
  unfoldable pub read_jedec_id : Flash S (ℕ × ℕ × ℕ)
  read_jedec_id = do id ← bus.xfer (read_jedec_id_cmd ∷ 0 ∷ 0 ∷ 0 ∷ []) 3; ok (id 1, id 2, id 0)

  -- `read_unique_id`.
  unfoldable pub read_unique_id : Flash S (ℕ → ℕ)
  read_unique_id = do
    id ← bus.xfer (read_unique_id_cmd ∷ 0 ∷ 0 ∷ 0 ∷ 0 ∷ []) 12
    ok (λ i. id (4 + i))

  -- `read`.
  unfoldable pub read : (addr len : ℕ) → Flash S (ℕ → ℕ)
  unfolding with_addr
  read addr len = bus.xfer_cmd_read (with_addr read_data_cmd addr) len

  -- `sector_erase_4k`, `block_erase_32k` and `block_erase_64k`, which differ in their command.
  unfoldable pub erase : (rounds cmd addr : ℕ) → Flash S (Unit {0})
  unfolding write_enable wait_busy with_addr
  erase rounds cmd addr = do write_enable; bus.xfer_send (with_addr cmd addr); wait_busy rounds

  -- `chip_erase`.
  unfoldable pub chip_erase : ℕ → Flash S (Unit {0})
  unfolding write_enable wait_busy
  chip_erase rounds = do write_enable; bus.xfer_send (chip_erase_cmd ∷ []); wait_busy rounds

  -- `page_program`.
  unfoldable pub page_program : (rounds addr : ℕ) → Slice → Flash S (Unit {0})
  unfolding write_enable wait_busy with_addr
  page_program rounds addr bytes s =
      if ltb 256 bytes.len
      then err too_large s
      else (write_enable
            >> bus.xfer_cmd_send (with_addr page_program_cmd addr) bytes
            >> wait_busy rounds)
          s

  -- The loop of `write`, with at most `n` rounds.
  unfoldable pub write_from : (n rounds addr : ℕ) → Slice → (offset : ℕ) → Flash S (Unit {0})
  unfolding page_program chunk_len
  write_from zero rounds addr bytes offset s = if ltb offset bytes.len then spins else ok tt s
  write_from (suc n) rounds addr bytes offset s =
      let page_addr = (addr + offset) % u32_mod in
      let chunk = chunk_len page_addr (bytes.len - offset) in
      let rest = write_from n rounds addr bytes (offset + chunk) in
      if ltb offset bytes.len
      then (page_program rounds page_addr (part bytes offset chunk) >> rest) s
      else ok tt s

  -- `write`: each round moves on by a byte at least.
  unfoldable pub write : (rounds addr : ℕ) → Slice → Flash S (Unit {0})
  unfolding write_from
  write rounds addr bytes = write_from bytes.len rounds addr bytes 0

  -- `power_down`.
  unfoldable pub power_down : Flash S (Unit {0})
  power_down = bus.xfer_send (power_down_cmd ∷ [])

  -- `release_power_down`.
  unfoldable pub release_power_down : Flash S (Unit {0})
  release_power_down = bus.xfer_send (release_power_down_cmd ∷ [])
