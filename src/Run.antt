-- ===== src/Run.antt =====
-- Running code that may be switched out: what `thread.rs` and the files of `ipc/` do up to their
-- return, a panic, or a context switch, from which they go on when the thread is scheduled again.
use f1c100s_rs.Base.{ℕ, Option, none, some}

-- `switch` holds the state that the next thread finds, and what the suspended thread does with
-- the state that it finds when it is resumed.
pub data Outcome (S A : Type 0) : Type 0 where
  ret : A → S → Outcome S A
  switch : (from to : ℕ) → S → (S → Outcome S A) → Outcome S A
  panic : Outcome S A

abbrev pub Run : Type 0 → Type 0 → Type 0
Run S A = S → Outcome S A

module _ {S A B : Type 0} where
  abbrev pub and_then : Outcome S A → (A → Run S B) → Outcome S B
  and_then (ret a s) k = k a s
  and_then (switch f t s r) k = switch f t s (λ s'. and_then (r s') k)
  and_then panic k = panic

  infixl 5 ◌>>=◌ ◌>>◌
  abbrev pub ◌>>=◌ : Run S A → (A → Run S B) → Run S B
  m >>= k = λ s. and_then (m s) k

  abbrev pub ◌>>◌ : Run S A → Run S B → Run S B
  m >> n = m >>= λ _. n

module _ {S : Type 0} where
  abbrev pub pure : {A : Type 0} → A → Run S A
  pure = ret

  abbrev pub get : Run S S
  get s = ret s s

  abbrev pub modify : (S → S) → Run S (Unit {0})
  modify f s = ret tt (f s)

  -- `Option::unwrap`, an index out of range, a failed `assert!`.
  abbrev pub expect : {A : Type 0} → Option A → Run S A
  expect none s = panic
  expect (some a) s = ret a s

-- No panic, and `P` holds wherever the code hands the state on: at its return, and at each switch
-- if it holds again at the resumption.
abbrev pub Stays : {S A : Type 0} → (S → Type 0) → Outcome S A → Type 0
Stays P (ret a s) = P s
Stays P (switch f t s r) = P s × ((s' : _) → P s' → Stays P (r s'))
Stays P panic = ⊥

pub Stays-and_then :
    {S A B : Type 0} (P : S → Type 0) (o : Outcome S A) (k : A → Run S B)
    → Stays P o
    → ((a : A) (s : S) → P s → Stays P (k a s))
    → Stays P (and_then o k)
Stays-and_then P (ret a s) k h next = next a s h
Stays-and_then P (switch f t s r) k h next =
    (h.0, λ s' p. Stays-and_then P (r s') k (h.1 s' p) next)
Stays-and_then P panic k h next = h

-- A method of an object that calls the scheduler: while the thread is away both may change.
module _ {O S A : Type 0} where
  abbrev pub beside : O → Outcome S A → Outcome (O × S) A
  beside o (ret a s) = ret a (o, s)
  beside o (switch f t s r) = switch f t (o, s) (λ (o', s'). beside o' (r s'))
  beside o panic = panic

  abbrev pub lift : Run S A → Run (O × S) A
  lift m (o, s) = beside o (m s)

-- An object that is a part of a larger one.
module _ {O P M A : Type 0} where
  abbrev pub focus : (O → P) → (O → P → O) → O → Outcome (P × M) A → Outcome (O × M) A
  focus view put o (ret a (p, m)) = ret a (put o p, m)
  focus view put o (switch f t (p, m) r) =
      switch f t (put o p, m) (λ (o', m'). focus view put o' (r (view o', m')))
  focus view put o panic = panic
