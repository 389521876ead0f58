-- ===== src/I2c/Controller.antt =====
-- What the handler of src/i2c.rs relies on: the controller, as its manual describes it, and the
-- calls of the driver that neither send a byte nor change what has been received.
use f1c100s_rs.Base.{
  ℕ, zero, suc, ◌<◌, ◌≡◌, refl, sym, ap, ◌∙◌, Bool, true, false, not, ◌&&◌, ◌||◌, Bool-cases, inl,
  inr, arith, List, [], ◌∷◌, ◌++◌, ◌==◌, if◌then◌else◌,
}
use f1c100s_rs.Bits.{bit_and, bit_or, not32, test_bit}
use f1c100s_rs.Bits.Laws.{test_bit-bit_or, test_bit-bit_and}
use f1c100s_rs.Run.{Run, ret, and_then, ◌>>=◌, ◌>>◌, pure}
use f1c100s_rs.Thread.Types.{Machine}
use f1c100s_rs.I2c.{
  Twi, State, twi_read, twi_write, change_ctl, twi_get_status, twi_clear_irq_flag, twi_set_bits,
  twi_clear_bits, twi_enable_irq, twi_disable_irq, twi_get_bit, twi_put_byte, twi_get_last_byte,
  twi_get_byte, twi_wait_start_clear, poll, ack_bit, sta_bit, stp_bit, inten_bit, intflg_bit,
  ctl_reg,
}
use f1c100s_rs.I2c.Core.{restart}

clear_ack : test_bit ack_bit 5 ≡ false
unfolding test_bit
clear_ack = refl

set_sta : test_bit sta_bit 5 ≡ true
unfolding test_bit
set_sta = refl

clear_sta : test_bit (not32 (bit_or sta_bit stp_bit)) 5 ≡ false
unfolding test_bit not32
clear_sta = refl

-- What the driver has the controller put on the bus: a byte, or a START.
pub data Issue : Type 0 where
  put : ℕ → Issue
  ask_start : Issue

-- A START is asked for, and no byte has come after it.
abbrev pub asked_after : Bool → List Issue → Bool
asked_after pending [] = pending
asked_after pending (put _ ∷ l) = asked_after false l
asked_after pending (ask_start ∷ l) = asked_after true l

abbrev pub asked : List Issue → Bool
asked l = asked_after false l

-- To ask again for a START that is pending has no effect.
abbrev pub with_start : List Issue → List Issue
with_start l = if asked l then l else l ++ ask_start ∷ []

-- `sent` is the list of what was put on the bus: the bytes that were written into the data register,
-- and a START where bit 5, STA, was written into the control register; the bit is read as set only
-- while a START is pending. `status` and `received` are the status code, and the byte in the data
-- register. `next` is the next event of the bus, with its code and the byte that has come in; it
-- raises the interrupt flag.
pub record IsController {D : Type 0} (dev_read : ℕ → D → ℕ × D) (dev_write : ℕ → ℕ → D → D)
    (next : ℕ → ℕ → D → D) (status received : D → ℕ) (sent : D → List Issue) : Type 0 where
  pub reads_status : (d : D) → bit_and (dev_read 0x10 d).0 0xff ≡ status d
  pub reads_data : (d : D) → bit_and (dev_read 0x08 d).0 0xff ≡ received d
  pub reads_start : (d : D) → test_bit (dev_read 0x0c d).0 5 ≡ true → asked (sent d) ≡ true
  pub read_keeps :
      (off : ℕ) (d : D)
      → let d' = (dev_read off d).1 in
        (status d' ≡ status d) × (received d' ≡ received d) × (sent d' ≡ sent d)
  pub write_keeps :
      (off v : ℕ) (d : D)
      → let d' = dev_write off v d in
        (status d' ≡ status d)
        × (received d' ≡ received d)
        × (sent d' ≡ (
            if off == 0x08
            then sent d ++ put v ∷ []
            else if off == 0x0c && test_bit v 5
            then with_start (sent d)
            else sent d))
  pub next_event :
      (code byte : ℕ) (d : D)
      → code < 256
      → byte < 256
      → let d' = next code byte d in
        (status d' ≡ code)
        × (received d' ≡ byte)
        × (sent d' ≡ sent d)
        × ((bit_and (dev_read 0x0c d').0 8 == 0) ≡ false)

module _ {D : Type 0} (dev_read : ℕ → D → ℕ × D) (dev_write : ℕ → ℕ → D → D) (next : ℕ → ℕ → D → D)
    (status received : D → ℕ) (sent : D → List Issue)
    (dev : IsController dev_read dev_write next status received sent) where
  -- Nothing that the other calls see has changed.
  abbrev pub Same : D → D → Type 0
  Same d d' = (status d' ≡ status d) × (received d' ≡ received d) × (sent d' ≡ sent d)

  -- The call returns, and changes the device only, and nothing of it that is seen.
  pub record IsQuiet {A : Type 0} (op : Run (State D) A) : Type 0 where
    pub run :
        (t : Twi D) (m : Machine)
        → (a : A) × (d : D) × (op (t, m) ≡ ret a (record t { dev = d }, m)) × Same t.dev d

  pub IsQuiet-bind :
      {A B : Type 0} (op : Run (State D) A) (k : A → Run (State D) B)
      → IsQuiet op
      → ((a : A) → IsQuiet (k a))
      → IsQuiet (op >>= k)
  IsQuiet-bind op k first rest = record {
    run = λ t m.
        let (a, d, e, (s1, s2, s3)) = first.run t m in
        let (b, d', e', (s1', s2', s3')) = (rest a).run (record t { dev = d }) m in
        (b, d', rw e e', (s1' ∙ s1, s2' ∙ s2, s3' ∙ s3));
  }

  pub IsQuiet-pure : {A : Type 0} (a : A) → IsQuiet (pure a)
  IsQuiet-pure a = record { run = λ t m. (a, t.dev, refl, (refl, refl, refl)) }

  pub IsQuiet-if :
      {A : Type 0} (b : Bool) (op op' : Run (State D) A)
      → IsQuiet op
      → IsQuiet op'
      → IsQuiet (if b then op else op')
  IsQuiet-if true op op' h h' = h
  IsQuiet-if false op op' h h' = h'

  twi_read-IsQuiet : (off : ℕ) → IsQuiet (twi_read dev_read dev_write off)
  unfolding twi_read
  twi_read-IsQuiet off = record { run = λ t m. (_, _, refl, dev.read_keeps off t.dev) }

  -- The call is quiet if a word `v` that it writes back holds STA only while a START is pending.
  record IsQuietAt (v : ℕ) {A : Type 0} (op : Run (State D) A) : Type 0 where
    run_at :
        (t : Twi D) (m : Machine)
        → (test_bit v 5 ≡ true → asked (sent t.dev) ≡ true)
        → (a : A) × (d : D) × (op (t, m) ≡ ret a (record t { dev = d }, m)) × Same t.dev d

  IsQuietAt-bind :
      (v : ℕ) {A B : Type 0} (op : Run (State D) A) (k : A → Run (State D) B)
      → IsQuietAt v op
      → ((a : A) → IsQuietAt v (k a))
      → IsQuietAt v (op >>= k)
  IsQuietAt-bind v op k first rest = record {
    run_at = λ t m told.
        let (a, d, e, (s1, s2, s3)) = first.run_at t m told in
        let (b, d', e', (s1', s2', s3')) =
          (rest a).run_at (record t { dev = d }) m (λ h. ap asked s3 ∙ told h) in
        (b, d', rw e e', (s1' ∙ s1, s2' ∙ s2, s3' ∙ s3));
  }

  IsQuietAt-if :
      (v : ℕ) {A : Type 0} (b : Bool) (op op' : Run (State D) A)
      → IsQuietAt v op
      → IsQuietAt v op'
      → IsQuietAt v (if b then op else op')
  IsQuietAt-if v true op op' h h' = h
  IsQuietAt-if v false op op' h h' = h'

  IsQuietAt-of : (v : ℕ) {A : Type 0} (op : Run (State D) A) → IsQuiet op → IsQuietAt v op
  IsQuietAt-of v op h = record { run_at = λ t m told. h.run t m }

  -- What is written back has STA only if what was read has.
  write_ctl-IsQuietAt :
      (v w : ℕ)
      → (test_bit w 5 ≡ true → test_bit v 5 ≡ true)
      → IsQuietAt v (twi_write dev_read dev_write ctl_reg w)
  unfolding twi_write
  write_ctl-IsQuietAt v w from = record {
    run_at = λ t m told.
        let (s1, s2, s3) = dev.write_keeps ctl_reg w t.dev in
        let same : (if test_bit w 5 then with_start (sent t.dev) else sent t.dev) ≡ sent t.dev =
          elim (Bool-cases (test_bit w 5)) [
            | inl sta ↦ rw (sta, told (from sta)) refl
            | inr none ↦ rw none refl
          ] in
        (_, _, refl, (s1, s2, s3 ∙ same));
  }

  -- The control register is read, and something of it written back.
  read_ctl-IsQuiet :
      {A : Type 0} (k : ℕ → Run (State D) A)
      → ((v : ℕ) → IsQuietAt v (k v))
      → IsQuiet (twi_read dev_read dev_write ctl_reg >>= k)
  unfolding twi_read
  read_ctl-IsQuiet k h = record {
    run = λ t m.
        let (v, d) = dev_read ctl_reg t.dev in
        let (s1, s2, s3) = dev.read_keeps ctl_reg t.dev in
        let (a, d', e, (s1', s2', s3')) =
          (h v).run_at (record t { dev = d }) m (λ sta. ap asked s3 ∙ dev.reads_start t.dev sta) in
        (a, d', e, (s1' ∙ s1, s2' ∙ s2, s3' ∙ s3));
  }

  -- The bits of a word that is masked.
  masked_sta : (v k : ℕ) → test_bit (bit_and v k) 5 ≡ true → test_bit v 5 ≡ true
  masked_sta v k h = left_of (test_bit v 5) (test_bit k 5) (sym (test_bit-bit_and v k 5) ∙ h)
    where
      left_of : (a b : Bool) → (a && b) ≡ true → a ≡ true
      left_of true b h = refl
      left_of false b h = h

  change_ctl-IsQuiet :
      (f : ℕ → ℕ)
      → ((v : ℕ) → test_bit (f v) 5 ≡ true → test_bit v 5 ≡ true)
      → IsQuiet (change_ctl dev_read dev_write f)
  unfolding change_ctl
  change_ctl-IsQuiet f from = read_ctl-IsQuiet _ (λ v. write_ctl-IsQuietAt v (f v) (from v))

  pub twi_set_ack-IsQuiet : IsQuiet (twi_set_bits dev_read dev_write ack_bit)
  unfolding twi_set_bits
  twi_set_ack-IsQuiet =
      change_ctl-IsQuiet (λ v. bit_or v ack_bit)
        λ v h.
          let ack : test_bit ack_bit 5 ≡ false = clear_ack in
          let bits : test_bit (bit_or v ack_bit) 5 ≡ (test_bit v 5 || false) =
            test_bit-bit_or v ack_bit 5 ∙ ap (λ b. test_bit v 5 || b) ack in
          ground (arith, bits, h)

  pub twi_clear_bits-IsQuiet : (bits : ℕ) → IsQuiet (twi_clear_bits dev_read dev_write bits)
  unfolding twi_clear_bits
  twi_clear_bits-IsQuiet bits =
      change_ctl-IsQuiet (λ v. bit_and v (not32 bits)) (λ v. masked_sta v (not32 bits))

  -- STA is masked.
  pub twi_enable_irq-IsQuiet : IsQuiet (twi_enable_irq dev_read dev_write)
  unfolding twi_enable_irq
  twi_enable_irq-IsQuiet =
      change_ctl-IsQuiet
        (λ val. bit_and (bit_or val (bit_or inten_bit intflg_bit)) (not32 (bit_or sta_bit stp_bit)))
        λ v h.
          let x = bit_or v (bit_or inten_bit intflg_bit) in
          let clear : (test_bit x 5 && test_bit (not32 (bit_or sta_bit stp_bit)) 5) ≡ false =
            ap (λ b. test_bit x 5 && b) clear_sta ∙ ground arith in
          absurd (cc (h, clear, test_bit-bit_and x (not32 (bit_or sta_bit stp_bit)) 5))

  pub twi_disable_irq-IsQuiet : IsQuiet (twi_disable_irq dev_read dev_write)
  unfolding twi_disable_irq
  twi_disable_irq-IsQuiet = read_ctl-IsQuiet _ λ v.
      let off = bit_and v (not32 inten_bit) in
      let quiet = write_ctl-IsQuietAt v off (masked_sta v (not32 inten_bit)) in
      IsQuietAt-bind v _ _ quiet (λ _. quiet)

  pub twi_clear_irq_flag-IsQuiet : IsQuiet (twi_clear_irq_flag dev_read dev_write)
  unfolding twi_clear_irq_flag
  twi_clear_irq_flag-IsQuiet = read_ctl-IsQuiet _ λ v.
      IsQuietAt-bind v _ _
        (write_ctl-IsQuietAt v (bit_and v (not32 intflg_bit)) (masked_sta v (not32 intflg_bit)))
        λ _. IsQuietAt-of v _ (
          read_ctl-IsQuiet _ λ check.
            IsQuietAt-if check (bit_and check intflg_bit == 0) _ _
              (IsQuietAt-of check _ (IsQuiet-pure tt))
              (write_ctl-IsQuietAt check (bit_and check (not32 intflg_bit))
                (masked_sta check (not32 intflg_bit))))

  twi_get_bit-IsQuiet : (bits : ℕ) → IsQuiet (twi_get_bit dev_read dev_write bits)
  unfolding twi_get_bit
  twi_get_bit-IsQuiet bits =
      IsQuiet-bind _ _ (twi_read-IsQuiet ctl_reg) (λ v. IsQuiet-pure (not (bit_and v bits == 0)))

  -- A poll ends, whatever the device answers.
  poll-IsQuiet :
      (n : ℕ) (test : Run (State D) Bool) → IsQuiet test → IsQuiet (poll dev_read dev_write n test)
  unfolding poll
  poll-IsQuiet zero test h = IsQuiet-bind test _ h (λ _. IsQuiet-pure 0)
  poll-IsQuiet (suc n) test h =
      IsQuiet-bind test _ h
        (λ waits. IsQuiet-if waits _ _ (poll-IsQuiet n test h) (IsQuiet-pure (suc n)))

  twi_wait_start_clear-IsQuiet : IsQuiet (twi_wait_start_clear dev_read dev_write)
  unfolding twi_wait_start_clear
  twi_wait_start_clear-IsQuiet =
      IsQuiet-bind _ _ (poll-IsQuiet 0xff _ (twi_get_bit-IsQuiet sta_bit))
        (λ left. IsQuiet-pure (not (left == 0)))

  -- STA is written, and a START is pending.
  twi_set_start_lem :
      (t : Twi D) (m : Machine)
      → (d : D) × (twi_set_bits dev_read dev_write sta_bit (t, m)
          ≡ ret tt (record t { dev = d }, m))
        × (sent d ≡ with_start (sent t.dev))
  unfolding twi_set_bits twi_read twi_write
  twi_set_start_lem t m =
      let (v, d) = dev_read ctl_reg t.dev in
      let (s1, s2, s3) = dev.read_keeps ctl_reg t.dev in
      let w = bit_or v sta_bit in
      let (w1, w2, w3) = dev.write_keeps ctl_reg w d in
      let sta : test_bit w 5 ≡ true =
        test_bit-bit_or v sta_bit 5 ∙ ap (λ b. test_bit v 5 || b) set_sta ∙ ground arith in
      (
        dev_write ctl_reg w d,
        refl,
        w3 ∙ (λ i. if sta i then with_start (sent d) else sent d) ∙ ap with_start s3,
      )

  pub restart_lem :
      (t : Twi D) (m : Machine)
      → (d : D) × (restart dev_read dev_write (t, m) ≡ ret tt (record t { dev = d }, m))
        × (sent d ≡ with_start (sent t.dev))
  unfolding restart
  restart_lem t m =
      let (d, e, out) = twi_set_start_lem t m in
      let after : Run (State D) (Unit {0}) = (do
        twi_clear_irq_flag dev_read dev_write
        cleared ← twi_wait_start_clear dev_read dev_write
        pure tt) in
      let rest : IsQuiet after =
        IsQuiet-bind _ _ twi_clear_irq_flag-IsQuiet
          (λ _. IsQuiet-bind _ _ twi_wait_start_clear-IsQuiet (λ cleared. IsQuiet-pure tt)) in
      let (_, d', e', (s1, s2, s3)) = rest.run (record t { dev = d }) m in
      (d', (λ i. and_then (e i) (λ _. after)) ∙ e', s3 ∙ out)

  -- The values that are read.
  pub twi_get_status_lem :
      (t : Twi D) (m : Machine)
      → (d : D) × (twi_get_status dev_read dev_write (t, m)
          ≡ ret (status t.dev) (record t { dev = d }, m))
        × Same t.dev d
  unfolding twi_get_status
  twi_get_status_lem t m = (
    (dev_read 0x10 t.dev).1,
    (λ i. ret (dev.reads_status t.dev i) (record t { dev = (dev_read 0x10 t.dev).1 }, m)),
    dev.read_keeps 0x10 t.dev,
  )

  pub twi_get_last_byte_lem :
      (t : Twi D) (m : Machine)
      → (d : D) × (twi_get_last_byte dev_read dev_write (t, m)
          ≡ ret (received t.dev) (record t { dev = d }, m))
        × Same t.dev d
  unfolding twi_get_last_byte
  twi_get_last_byte_lem t m = (
    (dev_read 0x08 t.dev).1,
    (λ i. ret (dev.reads_data t.dev i) (record t { dev = (dev_read 0x08 t.dev).1 }, m)),
    dev.read_keeps 0x08 t.dev,
  )

  pub twi_get_byte_lem :
      (t : Twi D) (m : Machine)
      → (d : D) × (twi_get_byte dev_read dev_write (t, m)
          ≡ ret (received t.dev) (record t { dev = d }, m))
        × Same t.dev d
  unfolding twi_get_byte
  twi_get_byte_lem t m =
      let (d, got, (s1, s2, s3)) = twi_get_last_byte_lem t m in
      let (_, d', e, (s1', s2', s3')) = twi_clear_irq_flag-IsQuiet.run (record t { dev = d }) m in
      (
        d',
        (λ i.
              and_then (got i)
                (λ byte s. and_then (twi_clear_irq_flag dev_read dev_write s) (λ _. pure byte)))
            ∙ (λ i. and_then (e i) (λ _. pure (received t.dev))),
        (s1' ∙ s1, s2' ∙ s2, s3' ∙ s3),
      )

  -- A byte that is sent.
  pub twi_put_byte_lem :
      (byte : ℕ) (t : Twi D) (m : Machine)
      → (d : D) × (twi_put_byte dev_read dev_write byte (t, m) ≡ ret tt (record t { dev = d }, m))
        × (sent d ≡ sent t.dev ++ put byte ∷ [])
  unfolding twi_put_byte twi_write
  twi_put_byte_lem byte t m =
      let (a, d, e, (s1, s2, s3)) =
        twi_clear_irq_flag-IsQuiet.run (record t { dev = dev_write 0x08 byte t.dev }) m in
      (d, e, s3 ∙ (dev.write_keeps 0x08 byte t.dev).2)
