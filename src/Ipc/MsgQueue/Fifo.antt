-- ===== src/Ipc/MsgQueue/Fifo.antt =====
-- The ring of src/ipc/msgqueue.rs beside the queue of messages that it stands for.
use native.Mathlib.Nat.{mod-lt}
use f1c100s_rs.Base.{
  ℕ, zero, suc, ◌+◌, ◌-◌, ◌*◌, ◌%◌, ◌<◌, ◌≤◌, ◌≡◌, ◌≢◌, ◌⊎◌, inl, inr, refl, sym, ap, ◌∙◌, true,
  false, none, some, List, [], ◌∷◌, ◌++◌, length, arith, lt→ltb, ge→ltb, lt_or_ge, ◌==◌, eq→==,
  Bool-cases, ==_iff,
}
use f1c100s_rs.Bits.{bit, bit_and, not32, u32_mod, trailing_zeros}
use f1c100s_rs.Bits.Scan.{trailing_zeros-set}
use f1c100s_rs.Run.{ret}
use f1c100s_rs.Thread.Types.{Machine, with_sched}
use f1c100s_rs.Thread.Schedule.{interrupt_disable, interrupt_enable}
use f1c100s_rs.Thread.Wait.{unblock, unblock_thread}
use f1c100s_rs.Ipc.MsgQueue.{
  MsgQueue, write_bytes, read_bytes, offset, enqueue, dequeue, wake_recv_waiter, wake_send_waiter,
  put_in, take_out, try_send, try_recv,
}
use f1c100s_rs.Ipc.MsgQueue.Slots.{
  read_bytes-away, read_bytes-write_bytes, offset_lem, apart, ahead, ahead-next, ahead-ne,
}

-- The `n` messages from the slot `i` on.
unfoldable pub window : (size capacity : ℕ) → (ℕ → ℕ) → ℕ → ℕ → List (List ℕ)
window size capacity buf zero i = []
window size capacity buf (suc n) i =
    read_bytes (offset size i) size buf ∷ window size capacity buf n ((i + 1) % capacity)

-- The queue that a ring stands for.
abbrev pub contents : MsgQueue → List (List ℕ)
contents o = window o.msg_size o.capacity o.buf o.count o.head

pub record IsRing (o : MsgQueue) : Type 0 where
  pub capacity_word : o.capacity < u32_mod
  pub fits : o.capacity * o.msg_size < u32_mod
  pub head_in : o.head < o.capacity
  pub tail_in : o.tail < o.capacity
  pub count_in : o.count ≤ o.capacity
  pub tail_at : o.tail ≡ ahead o.capacity o.count o.head

module _ (size capacity : ℕ) (fits : capacity * size < u32_mod) where
  -- A message is written into a slot that another does not use.
  slot-away :
      (i j : ℕ) (msg : List ℕ) (buf : ℕ → ℕ)
      → i < capacity
      → j < capacity
      → i ≢ j
      → length msg ≡ size
      → read_bytes (offset size i) size (write_bytes (offset size j) msg buf)
        ≡ read_bytes (offset size i) size buf
  slot-away i j msg buf hi hj ne e =
      let oi = offset_lem size capacity i hi fits in
      let oj = offset_lem size capacity j hj fits in
      read_bytes-away (offset size i) size (offset size j) msg buf
        (elim (apart size i j ne) [ inl h ↦ inl (omega arith) | inr h ↦ inr (omega arith) ])

  window-add :
      (n i j : ℕ) (msg : List ℕ) (buf : ℕ → ℕ)
      → i < capacity
      → j < capacity
      → n < capacity
      → j ≡ ahead capacity n i
      → length msg ≡ size
      → window size capacity (write_bytes (offset size j) msg buf) (suc n) i
        ≡ window size capacity buf n i ++ (msg ∷ [])
  unfolding window ahead
  window-add zero i j msg buf hi hj hn at e =
      ap (λ x. x ∷ [])
        (rw (sym at) (rw (sym e) (read_bytes-write_bytes (offset (length msg) j) msg buf)))
  window-add (suc n) i j msg buf hi hj hn at e =
      let away =
        slot-away i j msg buf hi hj (λ same. ahead-ne capacity n i hi hn (sym at ∙ sym same)) e in
      let rest =
        window-add n ((i + 1) % capacity) j msg buf (mod-lt (i + 1) (omega arith)) hj (omega arith)
          at e in
      λ k. away k ∷ rest k

-- `enqueue` adds the message at the end.
pub enqueue-contents :
    (o : MsgQueue) (msg : List ℕ)
    → IsRing o
    → o.count < o.capacity
    → length msg ≡ o.msg_size
    → IsRing (enqueue msg o) × (contents (enqueue msg o) ≡ contents o ++ (msg ∷ []))
unfolding enqueue window
enqueue-contents o msg h room e =
    let more : (o.count + 1) % u32_mod ≡ suc o.count = omega (arith, h.capacity_word) in
    (
      record {
        capacity_word = h.capacity_word;
        fits = h.fits;
        head_in = h.head_in;
        tail_in = mod-lt (o.tail + 1) (omega arith);
        count_in = omega arith;
        tail_at = rw (more, h.tail_at) (ahead-next o.capacity o.count o.head);
      },
      rw more (
          window-add o.msg_size o.capacity h.fits o.count o.head o.tail msg o.buf h.head_in
            h.tail_in room h.tail_at e),
    )

window-take :
    (size capacity n i : ℕ) (buf : ℕ → ℕ)
    → 0 < n
    → window size capacity buf n i
      ≡ read_bytes (offset size i) size buf ∷ window size capacity buf (n - 1) ((i + 1) % capacity)
unfolding window
window-take size capacity zero i buf h = absurd (omega arith)
window-take size capacity (suc n) i buf h = let e : suc n - 1 ≡ n = omega arith in rw e refl

ahead-take :
    (capacity n i : ℕ) → 0 < n → ahead capacity n i ≡ ahead capacity (n - 1) ((i + 1) % capacity)
unfolding ahead
ahead-take capacity zero i h = absurd (omega arith)
ahead-take capacity (suc n) i h = let e : suc n - 1 ≡ n = omega arith in rw e refl

-- `dequeue` takes the first message.
pub dequeue-contents :
    (o : MsgQueue)
    → IsRing o
    → 0 < o.count
    → IsRing (dequeue o).1 × (contents o ≡ (dequeue o).0 ∷ contents (dequeue o).1)
unfolding dequeue window
dequeue-contents o h some_in =
    let less : (o.count + u32_mod - 1) % u32_mod ≡ o.count - 1 =
      omega (arith, h.capacity_word, h.count_in) in
    (
      record {
        capacity_word = h.capacity_word;
        fits = h.fits;
        head_in = mod-lt (o.head + 1) (omega (arith, h.head_in));
        tail_in = h.tail_in;
        count_in = omega (arith, h.count_in);
        tail_at = rw less (h.tail_at ∙ ahead-take o.capacity o.count o.head some_in);
      },
      rw less (window-take o.msg_size o.capacity o.count o.head o.buf some_in),
    )

-- Waking a receiver, or a sender, leaves the ring as it is.
pub wake_recv_waiter_lem :
    (o : MsgQueue) (m : Machine)
    → o.recv_waiters < u32_mod
    → (r : ℕ) × (m' : Machine) × (wake_recv_waiter (o, m)
        ≡ ret tt (record o { recv_waiters = r }, m'))
unfolding wake_recv_waiter unblock_thread
wake_recv_waiter_lem o m word = elim (Bool-cases (o.recv_waiters == 0)) [
  | inl e ↦ (o.recv_waiters, m, rw e refl)
  | inr e ↦
      let w = trailing_zeros o.recv_waiters in
      let low = (trailing_zeros-set o.recv_waiters (ground (arith, e)) word).0 in
      (
        bit_and o.recv_waiters (not32 (bit w)),
        with_sched m (unblock w m.sched),
        rw (e, lt→ltb _ 32 low) refl,
      )
]

pub wake_send_waiter_lem :
    (o : MsgQueue) (m : Machine)
    → o.send_waiters < u32_mod
    → (r : ℕ) × (m' : Machine) × (wake_send_waiter (o, m)
        ≡ ret tt (record o { send_waiters = r }, m'))
unfolding wake_send_waiter unblock_thread
wake_send_waiter_lem o m word = elim (Bool-cases (o.send_waiters == 0)) [
  | inl e ↦ (o.send_waiters, m, rw e refl)
  | inr e ↦
      let w = trailing_zeros o.send_waiters in
      let low = (trailing_zeros-set o.send_waiters (ground (arith, e)) word).0 in
      (
        bit_and o.send_waiters (not32 (bit w)),
        with_sched m (unblock w m.sched),
        rw (e, lt→ltb _ 32 low) refl,
      )
]

try_send_sized-contents :
    (o : MsgQueue) (m : Machine) (msg : List ℕ)
    → IsRing o
    → o.recv_waiters < u32_mod
    → length msg ≡ o.msg_size
    → ((o.count ≡ o.capacity) × (try_send msg (o, m) ≡ ret false (o, m)))
      ⊎ ((o' : MsgQueue) × (m' : Machine) × (o.count < o.capacity)
          × (try_send msg (o, m) ≡ ret true (o', m'))
          × IsRing o'
          × (contents o' ≡ contents o ++ (msg ∷ [])))
unfolding try_send put_in
try_send_sized-contents o m msg h word e = elim (lt_or_ge o.count o.capacity) [
  | inl room ↦
      let (ring, added) = enqueue-contents o msg h room e in
      let (r, m', woke) = wake_recv_waiter_lem (enqueue msg o) (interrupt_disable m).1 word in
      inr (
        record (enqueue msg o) { recv_waiters = r },
        interrupt_enable m.cpsr m',
        room,
        rw (eq→== (length msg) o.msg_size e, lt→ltb o.count o.capacity room, woke) refl,
        record {
          capacity_word = ring.capacity_word;
          fits = ring.fits;
          head_in = ring.head_in;
          tail_in = ring.tail_in;
          count_in = ring.count_in;
          tail_at = ring.tail_at;
        },
        added,
      )
  | inr full ↦
      let same : o.count ≡ o.capacity = omega (arith, h.count_in) in
      inl (same, rw (eq→== (length msg) o.msg_size e, ge→ltb o.count o.capacity full) refl)
]

-- On a well-formed ring with a word of waiting receivers, `try_send` answers false, and changes
-- nothing, exactly if the length of the message is not the message size or the queue is full.
-- Otherwise it answers true, the ring is well-formed again, and the queue is the one before with the
-- message at its end.
pub try_send-contents :
    (o : MsgQueue) (m : Machine) (msg : List ℕ)
    → IsRing o
    → o.recv_waiters < u32_mod
    → (((length msg ≢ o.msg_size) ⊎ (o.count ≡ o.capacity))
        × (try_send msg (o, m) ≡ ret false (o, m)))
      ⊎ ((o' : MsgQueue) × (m' : Machine) × (length msg ≡ o.msg_size)
          × (o.count < o.capacity)
          × (try_send msg (o, m) ≡ ret true (o', m'))
          × IsRing o'
          × (contents o' ≡ contents o ++ (msg ∷ [])))
unfolding try_send
try_send-contents o m msg h word = elim (Bool-cases (length msg == o.msg_size)) [
  | inr other ↦ inl (inl (λ e. absurd (cc (eq→== (length msg) o.msg_size e, other))), rw other refl)
  | inl same ↦
      let e = (==_iff (length msg) o.msg_size).0 same in
      elim (try_send_sized-contents o m msg h word e) [
        | inl (full, ran) ↦ inl (inr full, ran)
        | inr (o', m', room, ran, ring, added) ↦ inr (o', m', e, room, ran, ring, added)
      ]
]

try_recv_sized-contents :
    (o : MsgQueue) (m : Machine)
    → IsRing o
    → o.send_waiters < u32_mod
    → ((contents o ≡ []) × (try_recv o.msg_size (o, m) ≡ ret none (o, m)))
      ⊎ ((msg : List ℕ) × (o' : MsgQueue) × (m' : Machine) × (try_recv o.msg_size (o, m)
            ≡ ret (some msg) (o', m'))
          × IsRing o'
          × (contents o ≡ msg ∷ contents o'))
unfolding try_recv take_out window
try_recv_sized-contents o m h word = elim (lt_or_ge 0 o.count) [
  | inl some_in ↦
      let (ring, split) = dequeue-contents o h some_in in
      let (r, m', woke) = wake_send_waiter_lem (dequeue o).1 (interrupt_disable m).1 word in
      inr (
        (dequeue o).0,
        record (dequeue o).1 { send_waiters = r },
        interrupt_enable m.cpsr m',
        rw (eq→== o.msg_size o.msg_size refl, lt→ltb 0 o.count some_in, woke) refl,
        record {
          capacity_word = ring.capacity_word;
          fits = ring.fits;
          head_in = ring.head_in;
          tail_in = ring.tail_in;
          count_in = ring.count_in;
          tail_at = ring.tail_at;
        },
        split,
      )
  | inr empty ↦ inl (
    (let z : o.count ≡ 0 = omega arith in rw z refl),
    rw (eq→== o.msg_size o.msg_size refl, ge→ltb 0 o.count empty) refl,
  )
]

-- On a well-formed ring with a word of waiting senders, `try_recv` answers false, and changes
-- nothing, exactly if the length of the buffer is not the message size or the queue is empty.
-- Otherwise it answers the first message, the ring is well-formed again, and the queue is what
-- comes after that message.
pub try_recv-contents :
    (o : MsgQueue) (m : Machine) (size : ℕ)
    → IsRing o
    → o.send_waiters < u32_mod
    → (((size ≢ o.msg_size) ⊎ (contents o ≡ [])) × (try_recv size (o, m) ≡ ret none (o, m)))
      ⊎ ((msg : List ℕ) × (o' : MsgQueue) × (m' : Machine) × (size ≡ o.msg_size)
          × (try_recv size (o, m) ≡ ret (some msg) (o', m'))
          × IsRing o'
          × (contents o ≡ msg ∷ contents o'))
unfolding try_recv
try_recv-contents o m size h word = elim (Bool-cases (size == o.msg_size)) [
  | inr other ↦ inl (inl (λ e. absurd (cc (eq→== size o.msg_size e, other))), rw other refl)
  | inl same ↦
      let e = (==_iff size o.msg_size).0 same in
      elim (try_recv_sized-contents o m h word) [
        | inl (empty, ran) ↦ inl (inr empty, (λ i. try_recv (e i) (o, m)) ∙ ran)
        | inr (msg, o', m', ran, ring, split) ↦
            inr (msg, o', m', e, (λ i. try_recv (e i) (o, m)) ∙ ran, ring, split)
      ]
]
