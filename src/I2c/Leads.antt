-- ===== src/I2c/Leads.antt =====
-- The handler of src/i2c.rs on the events of a message, one after the other.
use mathlib.Core.List.{append-nil, append_assoc}
use f1c100s_rs.Base.{
  ℕ, zero, suc, ◌+◌, ◌<◌, ◌≡◌, refl, sym, ap, ◌∙◌, subst, List, [], ◌∷◌, ◌++◌, ◌⊎◌, length, inl,
  inr, arith,
}
use f1c100s_rs.Run.{Run, and_then}
use f1c100s_rs.Thread.Types.{Machine}
use f1c100s_rs.I2c.{Twi, TwiMsg, State, addr_byte}
use f1c100s_rs.I2c.Controller.{Issue, put, IsController}
use f1c100s_rs.I2c.Steps.{
  serve_one, IsAt, Goes, start-Goes, byte-Goes, acked-Goes, byte_in-Goes, at_ptr, with_byte,
}
use f1c100s_rs.I2c.Script.{Event, acks, ins, AllBytes, writes, bytes_at, puts, stored}

module _ {D : Type 0} (dev_read : ℕ → D → ℕ × D) (dev_write : ℕ → ℕ → D → D) (next : ℕ → ℕ → D → D)
    (status received : D → ℕ) (sent : D → List Issue)
    (dev : IsController dev_read dev_write next status received sent) where
  abbrev one : ℕ → ℕ → Run (State D) (Unit {0})
  one = serve_one dev_read dev_write next status received sent dev

  -- The handler on the events and then on the last one.
  abbrev pub serve : List Event → Event → Run (State D) (Unit {0})
  serve [] (code, byte) = one code byte
  serve ((c, b) ∷ es) final = λ s. and_then (one c b s) (λ _. serve es final)

  -- The events lead from one state to the other, with the bytes that are sent.
  abbrev pub Leads : List Event → Twi D → Twi D → List Issue → Machine → Type 0
  Leads es t t' bytes m =
      (d : D) × ((more : List Event) (final : Event)
        → serve (es ++ more) final (t, m) ≡ serve more final (record t' { dev = d }, m))
      × (sent d ≡ sent t.dev ++ bytes)

  pub one-Leads :
      (code byte : ℕ) (t t' : Twi D) (bytes : List Issue) (m : Machine)
      → Goes dev_read dev_write next status received sent dev code byte t t' bytes m
      → Leads ((code, byte) ∷ []) t t' bytes m
  one-Leads code byte t t' bytes m (d, e, out) =
      (d, (λ more final i. and_then (e i) (λ _. serve more final)), out)

  pub Leads-append :
      (es es' : List Event) (t t' t'' : Twi D) (bytes bytes' : List Issue) (m : Machine)
      → Leads es t t' bytes m
      → ((d : D) → sent d ≡ sent t.dev ++ bytes → Leads es' (record t' { dev = d }) t'' bytes' m)
      → Leads (es ++ es') t t'' (bytes ++ bytes') m
  Leads-append es es' t t' t'' bytes bytes' m (d, e, out) rest =
      let (d', e', out') = rest d out in
      (
        d',
        (λ more final.
            (λ i. serve (append_assoc es es' more i) final (t, m))
            ∙ e (es' ++ more) final
            ∙ e' more final),
        out' ∙ ap (λ l. l ++ bytes') out ∙ append_assoc (sent t.dev) bytes bytes',
      )

  -- The other bytes of a message.
  acks-Leads :
      (n : ℕ) (t : Twi D) (msg : TwiMsg) (m : Machine)
      → IsAt dev_read dev_write next status received sent dev t msg
      → t.ch.msg_ptr + n ≡ msg.len
      → Leads
          (acks n)
          t
          (at_ptr dev_read dev_write next status received sent dev msg.len t)
          (puts (bytes_at t.mem (msg.buf + t.ch.msg_ptr) n))
          m
  acks-Leads zero t msg m at e =
      let end : t.ch.msg_ptr ≡ msg.len = omega arith in
      (
        t.dev,
        (λ more final i.
            serve more final
              (at_ptr dev_read dev_write next status received sent dev (end i) t, m)),
        sym (append-nil (sent t.dev)),
      )
  acks-Leads (suc n) t msg m at e =
      let p = t.ch.msg_ptr in
      let b = t.mem (msg.buf + p) in
      let t' = at_ptr dev_read dev_write next status received sent dev (p + 1) t in
      let t'' = at_ptr dev_read dev_write next status received sent dev msg.len t in
      let after : msg.buf + (p + 1) ≡ msg.buf + p + 1 = omega arith in
      Leads-append ((0x28, 0) ∷ []) (acks n) t t' t'' (put b ∷ [])
        (puts (bytes_at t.mem (msg.buf + p + 1) n)) m
        (one-Leads 0x28 0 t t' (put b ∷ []) m (
          byte-Goes dev_read dev_write next status received sent dev 0x28 0 t msg m (inr refl)
            (omega arith) at (omega arith)))
        (λ d _.
          subst
            (λ from. Leads (acks n) (record t' { dev = d }) t'' (puts (bytes_at t.mem from n)) m)
            after
            (acks-Leads n (record t' { dev = d }) msg m
              (record { going = at.going; here = at.here; left = at.left }) (omega arith)))

  -- A message that is written, from START to its last byte.
  pub writes-Leads :
      (n : ℕ) (t : Twi D) (msg : TwiMsg) (m : Machine)
      → IsAt dev_read dev_write next status received sent dev t msg
      → t.ch.msg_ptr ≡ 0
      → msg.len ≡ suc n
      → Leads
          (writes n)
          t
          (at_ptr dev_read dev_write next status received sent dev msg.len t)
          (put (addr_byte dev_read dev_write msg.addr msg.read)
            ∷ puts (bytes_at t.mem msg.buf (suc n)))
          m
  writes-Leads n t msg m at front size =
      let first = put (addr_byte dev_read dev_write msg.addr msg.read) in
      let p = t.ch.msg_ptr in
      let t1 = at_ptr dev_read dev_write next status received sent dev (p + 1) t in
      let t2 = at_ptr dev_read dev_write next status received sent dev msg.len t in
      let from : msg.buf + p ≡ msg.buf = omega arith in
      let after : msg.buf + (p + 1) ≡ msg.buf + 1 = omega arith in
      Leads-append ((0x08, 0) ∷ []) ((0x18, 0) ∷ acks n) t t t2 (first ∷ [])
        (puts (bytes_at t.mem msg.buf (suc n))) m
        (one-Leads 0x08 0 t t (first ∷ []) m (
          start-Goes dev_read dev_write next status received sent dev 0x08 0 t msg m (inl refl)
            (omega arith) at))
        (λ d _.
          let td = record t { dev = d } in
          let at' : IsAt dev_read dev_write next status received sent dev td msg = record {
            going = at.going;
            here = at.here;
            left = at.left;
          } in
          Leads-append ((0x18, 0) ∷ []) (acks n) td t1 t2 (put (t.mem msg.buf) ∷ [])
            (puts (bytes_at t.mem (msg.buf + 1) n)) m
            (one-Leads 0x18 0 td t1 (put (t.mem msg.buf) ∷ []) m (
              subst
                (λ f.
                  Goes dev_read dev_write next status received sent dev 0x18 0 td t1
                    (put (t.mem f) ∷ []) m)
                from
                (byte-Goes dev_read dev_write next status received sent dev 0x18 0 td msg m
                  (inl refl) (omega arith) at' (omega arith))))
            (λ d' _.
              subst (λ f. Leads (acks n) (record t1 { dev = d' }) t2 (puts (bytes_at t.mem f n)) m)
                after
                (acks-Leads n (record t1 { dev = d' }) msg m
                  (record { going = at.going; here = at.here; left = at.left }) (omega arith))))

  abbrev pub with_bytes : ℕ → List ℕ → Twi D → Twi D
  with_bytes p bs t = record t {
    mem = stored t.mem p bs;
    ch = record (t.ch) { msg_ptr = t.ch.msg_ptr + length bs };
  }

  -- The bytes that come in before the last one.
  ins-Leads :
      (bs : List ℕ) (t : Twi D) (msg : TwiMsg) (m : Machine)
      → AllBytes bs
      → IsAt dev_read dev_write next status received sent dev t msg
      → t.ch.msg_ptr + length bs < msg.len
      → Leads (ins bs) t (with_bytes (msg.buf + t.ch.msg_ptr) bs t) [] m
  ins-Leads [] t msg m small at fits =
      let same : t.ch.msg_ptr ≡ t.ch.msg_ptr + 0 = omega arith in
      (
        t.dev,
        (λ more final i.
            serve more final
              (at_ptr dev_read dev_write next status received sent dev (same i) t, m)),
        sym (append-nil (sent t.dev)),
      )
  ins-Leads (b ∷ bs) t msg m small at fits =
      let p = t.ch.msg_ptr in
      let t' =
        at_ptr dev_read dev_write next status received sent dev (p + 1)
          (with_byte dev_read dev_write next status received sent dev (msg.buf + p) b t) in
      let t'' = with_bytes (msg.buf + p) (b ∷ bs) t in
      let after : msg.buf + (p + 1) ≡ msg.buf + p + 1 = omega arith in
      let count : p + 1 + length bs ≡ p + length (b ∷ bs) = omega arith in
      Leads-append ((0x50, b) ∷ []) (ins bs) t t' t'' [] [] m
        (one-Leads 0x50 b t t' [] m (
          byte_in-Goes dev_read dev_write next status received sent dev b t msg m (small.0) at
            (omega arith)))
        (λ d _.
          subst (λ u. Leads (ins bs) (record t' { dev = d }) u [] m)
            (λ i. record t {
              dev = d;
              mem = stored t'.mem (after i) bs;
              ch = record (t.ch) { msg_ptr = count i };
            })
            (ins-Leads bs (record t' { dev = d }) msg m (small.1)
              (record { going = at.going; here = at.here; left = at.left }) (omega arith)))

  -- The bytes of a message that is read, from its address on, up to the last one.
  pub reads-Leads :
      (c : ℕ) (bs : List ℕ) (t : Twi D) (msg : TwiMsg) (m : Machine)
      → (c ≡ 0x08) ⊎ (c ≡ 0x10)
      → AllBytes bs
      → IsAt dev_read dev_write next status received sent dev t msg
      → t.ch.msg_ptr + length bs < msg.len
      → Leads
          ((c, 0) ∷ (0x40, 0) ∷ ins bs)
          t
          (with_bytes (msg.buf + t.ch.msg_ptr) bs t)
          (put (addr_byte dev_read dev_write msg.addr msg.read) ∷ [])
          m
  reads-Leads c bs t msg m started small at fits =
      let first = put (addr_byte dev_read dev_write msg.addr msg.read) in
      let t'' = with_bytes (msg.buf + t.ch.msg_ptr) bs t in
      Leads-append ((c, 0) ∷ []) ((0x40, 0) ∷ ins bs) t t t'' (first ∷ []) [] m
        (one-Leads c 0 t t (first ∷ []) m (
          start-Goes dev_read dev_write next status received sent dev c 0 t msg m started
            (omega arith) at))
        (λ d _.
          let td = record t { dev = d } in
          let at' : IsAt dev_read dev_write next status received sent dev td msg = record {
            going = at.going;
            here = at.here;
            left = at.left;
          } in
          Leads-append ((0x40, 0) ∷ []) (ins bs) td t t'' [] [] m
            (one-Leads 0x40 0 td t [] m (
              acked-Goes dev_read dev_write next status received sent dev 0 td msg m (omega arith)
                at'))
            (λ d' _.
              ins-Leads bs (record t { dev = d' }) msg m small
                (record { going = at.going; here = at.here; left = at.left }) fits))
