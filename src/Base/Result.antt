-- ===== src/Base/Result.antt =====
-- Exceptions as values, and transactions.

-- What a Python function returns or raises.
pub data Result (E A : Type 0) : Type 0 where
  ok : A → Result E A
  err : E → Result E A

abbrev pub settle : {S E A : Type 0} → S → Result E A × S → Result E A × S
settle s (ok a, s') = (ok a, s')
settle s (err e, s') = (err e, s)

-- The context managers `_immediate(connection)` and `with self.connection`: the body's writes are
-- committed when it returns, and rolled back when it raises.
abbrev pub transaction : {S E A : Type 0} → (S → Result E A × S) → S → Result E A × S
transaction body s = settle s (body s)
