-- ===== src/Tests/Queue.antt =====
-- A message queue of src/ipc/msgqueue.rs: messages of one byte, and two slots.
use f1c100s_rs.Base.{
  ℕ, ◌+◌, ◌<◌, ◌≡◌, ◌⊎◌, refl, true, false, none, some, List, [], ◌∷◌, ◌++◌, arith, ◌≢◌, length,
}
use f1c100s_rs.Run.{ret}
use f1c100s_rs.Thread.Types.{Machine}
use f1c100s_rs.Ipc.MsgQueue.{MsgQueue, Reply, new, dequeue, try_send, try_recv, send_waited}
use f1c100s_rs.Ipc.MsgQueue.Slots.{ahead}
use f1c100s_rs.Ipc.MsgQueue.Fifo.{IsRing, contents, try_send-contents, try_recv-contents}
use f1c100s_rs.Ipc.MsgQueue.Woken.{send_waited-overfull}
use f1c100s_rs.Tests.Scheduler.{machine}

-- As `new` makes it.
abbrev fresh : MsgQueue
fresh = record {
  buf = λ _. 0;
  msg_size = 1;
  capacity = 2;
  head = 0;
  tail = 0;
  count = 0;
  recv_waiters = 0;
  send_waiters = 0;
}

new_runs : new (λ _. 0) 2 1 ≡ some fresh
unfolding new
new_runs = refl

-- Both slots are in use, and the first message is in the last slot.
abbrev full : MsgQueue
full = record fresh { buf = λ j. 7 + j; head = 1; tail = 1; count = 2; send_waiters = 2 }

fresh-IsRing : IsRing fresh
unfolding ahead
fresh-IsRing = record {
  capacity_word = omega arith;
  fits = omega arith;
  head_in = omega arith;
  tail_in = omega arith;
  count_in = omega arith;
  tail_at = refl;
}

full-IsRing : IsRing full
unfolding ahead
full-IsRing = record {
  capacity_word = omega arith;
  fits = omega arith;
  head_in = omega arith;
  tail_in = omega arith;
  count_in = omega arith;
  tail_at = refl;
}

try_send-contents_example :
    (((length {A = ℕ} (5 ∷ []) ≢ 1) ⊎ (fresh.count ≡ fresh.capacity))
      × (try_send (5 ∷ []) (fresh, machine) ≡ ret false (fresh, machine)))
    ⊎ ((o' : MsgQueue) × (m' : Machine) × (length {A = ℕ} (5 ∷ []) ≡ 1)
        × (fresh.count < fresh.capacity)
        × (try_send (5 ∷ []) (fresh, machine) ≡ ret true (o', m'))
        × IsRing o'
        × (contents o' ≡ contents fresh ++ ((5 ∷ []) ∷ [])))
try_send-contents_example = try_send-contents fresh machine (5 ∷ []) fresh-IsRing (omega arith)

try_recv-contents_example :
    (((full.msg_size ≢ full.msg_size) ⊎ (contents full ≡ []))
      × (try_recv 1 (full, machine) ≡ ret none (full, machine)))
    ⊎ ((msg : List ℕ) × (o' : MsgQueue) × (m' : Machine) × (full.msg_size ≡ full.msg_size)
        × (try_recv 1 (full, machine) ≡ ret (some msg) (o', m'))
        × IsRing o'
        × (contents full ≡ msg ∷ contents o'))
try_recv-contents_example = try_recv-contents full machine 1 full-IsRing (omega arith)

send_waited-overfull_example :
    (o' : MsgQueue) × (m' : Machine) × (send_waited 1 (5 ∷ []) true 0x13 (full, machine)
      ≡ ret (Reply.ok tt) (o', m'))
    × (o'.count ≡ 2 + 1)
    × ((dequeue o').0 ≡ (5 ∷ []))
send_waited-overfull_example =
    send_waited-overfull full machine 1 0x13 (5 ∷ []) full-IsRing refl (omega arith) (omega arith)
      refl
