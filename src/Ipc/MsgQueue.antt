-- ===== src/Ipc/MsgQueue.antt =====
-- src/ipc/msgqueue.rs. The buffer is a function from the offset; offsets wrap as `usize` does.
pub mod Slots
pub mod Fifo
pub mod Woken
use f1c100s_rs.Base.{
  ℕ, zero, suc, ◌+◌, ◌-◌, ◌*◌, ◌/◌, ◌%◌, Bool, true, false, Option, none, some, List, [], ◌∷◌,
  length, ltb, ◌==◌, if◌then◌else◌, update,
}
use f1c100s_rs.Bits.{bit, bit_or, bit_and, not32, trailing_zeros, u32_mod}
use f1c100s_rs.Run.{ret, Run, and_then, lift}
use f1c100s_rs.Thread.Types.{Machine}
use f1c100s_rs.Thread.Schedule.{interrupt_disable, interrupt_enable}
use f1c100s_rs.Thread.Wait.{unblock_thread, current_id}
use f1c100s_rs.Ipc.Section.{mask_off, restore, await}

-- `MsgError`, and the `Ok` of the results; `recv` hands the message out.
pub data Reply (A : Type 0) : Type 0 where
  ok : A → Reply A
  timeout bad_size too_small : Reply A

pub record MsgQueue : Type 0 where
  pub buf : ℕ → ℕ
  pub msg_size : ℕ
  pub capacity : ℕ
  pub head : ℕ
  pub tail : ℕ
  pub count : ℕ
  pub recv_waiters : ℕ
  pub send_waiters : ℕ

abbrev pub State : Type 0
State = MsgQueue × Machine

-- `MsgQueue::new` on a buffer of `len` bytes; `none` is the failure of an assertion.
unfoldable pub new : (ℕ → ℕ) → (len msg_size : ℕ) → Option MsgQueue
new buf len msg_size =
    if msg_size == 0
    then none
    else (let capacity = len / msg_size in
        if capacity == 0
        then none
        else some (record {
          buf = buf;
          msg_size = msg_size;
          capacity = capacity;
          head = 0;
          tail = 0;
          count = 0;
          recv_waiters = 0;
          send_waiters = 0;
        }))

-- `copy_nonoverlapping` into the buffer, and out of it.
unfoldable pub write_bytes : ℕ → List ℕ → (ℕ → ℕ) → ℕ → ℕ
write_bytes at [] b = b
write_bytes at (x ∷ xs) b = update (write_bytes (at + 1) xs b) at x

unfoldable pub read_bytes : ℕ → ℕ → (ℕ → ℕ) → List ℕ
read_bytes at zero b = []
read_bytes at (suc n) b = b at ∷ read_bytes (at + 1) n b

-- `i * self.msg_size`.
abbrev pub offset : ℕ → ℕ → ℕ
offset size i = i * size % u32_mod

-- `enqueue`, of a message of the length `msg_size`.
unfoldable pub enqueue : List ℕ → MsgQueue → MsgQueue
unfolding write_bytes
enqueue msg o = record o {
  buf = write_bytes (offset o.msg_size o.tail) msg o.buf;
  tail = (o.tail + 1) % o.capacity;
  count = (o.count + 1) % u32_mod;
}

-- `dequeue`: the message, and the queue.
unfoldable pub dequeue : MsgQueue → List ℕ × MsgQueue
unfolding read_bytes
dequeue o = (
  read_bytes (offset o.msg_size o.head) o.msg_size o.buf,
  record o { head = (o.head + 1) % o.capacity; count = (o.count + u32_mod - 1) % u32_mod },
)

-- `wake_recv_waiter`.
unfoldable pub wake_recv_waiter : Run State (Unit {0})
wake_recv_waiter (o, m) =
    if o.recv_waiters == 0
    then ret tt (o, m)
    else (let id = trailing_zeros o.recv_waiters in
        lift (unblock_thread id)
          (record o { recv_waiters = bit_and o.recv_waiters (not32 (bit id)) }, m))

-- `wake_send_waiter`.
unfoldable pub wake_send_waiter : Run State (Unit {0})
wake_send_waiter (o, m) =
    if o.send_waiters == 0
    then ret tt (o, m)
    else (let id = trailing_zeros o.send_waiters in
        lift (unblock_thread id)
          (record o { send_waiters = bit_and o.send_waiters (not32 (bit id)) }, m))

-- `enqueue`, `wake_recv_waiter` and the restored interrupts.
unfoldable pub put_in : List ℕ → ℕ → Run State (Unit {0})
unfolding enqueue wake_recv_waiter interrupt_enable
put_in msg cpsr (o, m) =
    and_then (wake_recv_waiter (enqueue msg o, m)) (λ _ s. ret tt (restore cpsr s))

-- `dequeue`, `wake_send_waiter` and the restored interrupts.
unfoldable pub take_out : ℕ → Run State (List ℕ)
unfolding dequeue wake_send_waiter interrupt_enable
take_out cpsr (o, m) =
    let (msg, o') = dequeue o in
    and_then (wake_send_waiter (o', m)) (λ _ s. ret msg (restore cpsr s))

-- `send`, after the wait.
unfoldable pub send_waited : ℕ → List ℕ → Bool → ℕ → Run State (Reply (Unit {0}))
unfolding put_in interrupt_enable
send_waited id msg true cpsr s = and_then (put_in msg cpsr s) (λ _. ret (ok tt))
send_waited id msg false cpsr (o, m) =
    ret timeout
      (restore cpsr (record o { send_waiters = bit_and o.send_waiters (not32 (bit id)) }, m))

-- `send`.
unfoldable pub send : List ℕ → Option ℕ → Run State (Reply (Unit {0}))
unfolding interrupt_disable put_in send_waited await
send msg limit s =
    if length msg == s.0.msg_size
    then (let (cpsr, (o, m)) = mask_off s in
        if ltb o.count o.capacity
        then and_then (put_in msg cpsr (o, m)) (λ _. ret (ok tt))
        else (let id = current_id m in
            await limit (send_waited id msg)
              (record o { send_waiters = bit_or o.send_waiters (bit id) }, m)))
    else ret bad_size s

-- `recv`, after the wait.
unfoldable pub recv_waited : ℕ → Bool → ℕ → Run State (Reply (List ℕ))
unfolding take_out interrupt_enable
recv_waited id true cpsr s = and_then (take_out cpsr s) (λ msg. ret (ok msg))
recv_waited id false cpsr (o, m) =
    ret timeout
      (restore cpsr (record o { recv_waiters = bit_and o.recv_waiters (not32 (bit id)) }, m))

-- `recv` into a buffer of `len` bytes.
unfoldable pub recv : (len : ℕ) → Option ℕ → Run State (Reply (List ℕ))
unfolding interrupt_disable take_out recv_waited await
recv len limit s =
    if len == s.0.msg_size
    then (let (cpsr, (o, m)) = mask_off s in
        if ltb 0 o.count
        then and_then (take_out cpsr (o, m)) (λ msg. ret (ok msg))
        else (let id = current_id m in
            await limit (recv_waited id)
              (record o { recv_waiters = bit_or o.recv_waiters (bit id) }, m)))
    else ret bad_size s

-- `try_send`.
unfoldable pub try_send : List ℕ → Run State Bool
unfolding interrupt_disable interrupt_enable put_in
try_send msg s =
    if length msg == s.0.msg_size
    then (let (cpsr, (o, m)) = mask_off s in
        if ltb o.count o.capacity
        then and_then (put_in msg cpsr (o, m)) (λ _. ret true)
        else ret false (restore cpsr (o, m)))
    else ret false s

-- `try_recv` into a buffer of `len` bytes: `none` is the answer false.
unfoldable pub try_recv : (len : ℕ) → Run State (Option (List ℕ))
unfolding interrupt_disable interrupt_enable take_out
try_recv len s =
    if len == s.0.msg_size
    then (let (cpsr, (o, m)) = mask_off s in
        if ltb 0 o.count
        then and_then (take_out cpsr (o, m)) (λ msg. ret (some msg))
        else ret none (restore cpsr (o, m)))
    else ret none s

-- `is_empty` and `is_full`; `len` and `capacity` are fields.
unfoldable pub is_empty : MsgQueue → Bool
is_empty o = o.count == 0

unfoldable pub is_full : MsgQueue → Bool
is_full o = o.count == o.capacity
