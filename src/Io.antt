-- ===== src/Io.antt =====
-- What a call of a driver does: it answers a value or an error and leaves the device in a state, or
-- it panics. `spins` stands for a loop that waits for the device and is not over after the rounds
-- that it is given.
use f1c100s_rs.Base.{ℕ}

pub data Io (S E A : Type 0) : Type 0 where
  ok : A → S → Io S E A
  err : E → S → Io S E A
  spins : Io S E A
  panics : Io S E A

abbrev pub Call : Type 0 → Type 0 → Type 0 → Type 0
Call S E A = S → Io S E A

module _ {S E A B : Type 0} where
  abbrev pub and_then : Io S E A → (A → Call S E B) → Io S E B
  and_then (ok a s) k = k a s
  and_then (err e s) k = err e s
  and_then spins k = spins
  and_then panics k = panics

  infixl 5 ◌>>=◌ ◌>>◌
  abbrev pub ◌>>=◌ : Call S E A → (A → Call S E B) → Call S E B
  m >>= k = λ s. and_then (m s) k

  abbrev pub ◌>>◌ : Call S E A → Call S E B → Call S E B
  m >> n = m >>= λ _. n

-- `f` runs and its answer, error or not, is kept while `after` runs: a result that is bound by
-- `let`, with a clean-up behind it.
module _ {S E A : Type 0} where
  abbrev pub finally : (S → S) → Io S E A → Io S E A
  finally f (ok a s) = ok a (f s)
  finally f (err e s) = err e (f s)
  finally f spins = spins
  finally f panics = panics

  abbrev pub map_err : {E' : Type 0} → (E → E') → Io S E A → Io S E' A
  map_err f (ok a s) = ok a s
  map_err f (err e s) = err (f e) s
  map_err f spins = spins
  map_err f panics = panics

-- A slice: where its elements are, and how many there are.
pub record Slice : Type 0 where
  pub at : ℕ → ℕ
  pub len : ℕ
