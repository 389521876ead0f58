-- ===== src/Ipc/MsgQueue/Woken.antt =====
-- What src/ipc/msgqueue.rs does after a wait.
use f1c100s_rs.Base.{ℕ, ◌+◌, ◌-◌, ◌<◌, ◌≡◌, refl, sym, ap, ◌∙◌, true, List, length, arith}
use f1c100s_rs.Bits.{u32_mod}
use f1c100s_rs.Run.{ret}
use f1c100s_rs.Thread.Types.{Machine}
use f1c100s_rs.Thread.Schedule.{interrupt_enable}
use f1c100s_rs.Ipc.MsgQueue.{
  MsgQueue, ok, offset, enqueue, dequeue, read_bytes, put_in, take_out, send_waited, recv_waited,
}
use f1c100s_rs.Ipc.MsgQueue.Slots.{ahead, ahead_round, read_bytes-write_bytes}
use f1c100s_rs.Ipc.MsgQueue.Fifo.{IsRing, wake_recv_waiter_lem, wake_send_waiter_lem}

-- A sender that was woken enqueues even if the ring was filled again before it ran: the count then
-- exceeds the capacity, and the message that would have been received next is overwritten.
pub send_waited-overfull :
    (o : MsgQueue) (m : Machine) (id cpsr : ℕ) (msg : List ℕ)
    → IsRing o
    → o.count ≡ o.capacity
    → o.capacity + 1 < u32_mod
    → o.recv_waiters < u32_mod
    → length msg ≡ o.msg_size
    → (o' : MsgQueue) × (m' : Machine) × (send_waited id msg true cpsr (o, m)
        ≡ ret (ok tt) (o', m'))
      × (o'.count ≡ o.capacity + 1)
      × ((dequeue o').0 ≡ msg)
unfolding send_waited put_in enqueue dequeue
send_waited-overfull o m id cpsr msg h full small word e =
    let same : o.tail ≡ o.head =
      h.tail_at
      ∙ ap (λ n. ahead o.capacity n o.head) full
      ∙ ahead_round o.capacity o.head h.head_in in
    let (r, m', woke) = wake_recv_waiter_lem (enqueue msg o) m word in
    (
      record (enqueue msg o) { recv_waiters = r },
      interrupt_enable cpsr m',
      rw woke refl,
      omega arith,
      rw (same, sym e) (read_bytes-write_bytes (offset (length msg) o.head) msg o.buf),
    )

-- A receiver that was woken dequeues even if the ring was emptied before it ran: it returns what
-- the slot holds, and the count wraps around to the greatest number.
pub recv_waited-underflow :
    (o : MsgQueue) (m : Machine) (id cpsr : ℕ)
    → o.count ≡ 0
    → o.send_waiters < u32_mod
    → (o' : MsgQueue) × (m' : Machine) × (recv_waited id true cpsr (o, m)
        ≡ ret (ok (read_bytes (offset o.msg_size o.head) o.msg_size o.buf)) (o', m'))
      × (o'.count ≡ u32_mod - 1)
unfolding recv_waited take_out dequeue
recv_waited-underflow o m id cpsr empty word =
    let (r, m', woke) = wake_send_waiter_lem (dequeue o).1 m word in
    (record (dequeue o).1 { send_waiters = r }, interrupt_enable cpsr m', rw woke refl, omega arith)
