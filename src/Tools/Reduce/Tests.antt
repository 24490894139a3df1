-- ===== src/Tools/Reduce/Tests.antt =====
-- Reductions at concrete outputs.
use pi_rs.Prelude.{ℕ, zero, suc, ◌≡◌, [], ◌∷◌, arith}
use pi_rs.Tools.Reduce.{Bytes, Reduction, overflowed, reduced, reduce, budget_of}
use pi_rs.Tools.Reduce.Accounting.{Accounts, reduce-Accounts, reduce_overflows}

abbrev notice : ℕ → ℕ → Bytes
notice elided full = b'.' ∷ []

-- So many bytes, each a character.
abbrev repeated : ℕ → Bytes
repeated zero = []
repeated (suc n) = b'a' ∷ repeated n

reduce-Accounts_example :
    (r : Reduction) × (reduce notice (repeated 1500) 1200 ≡ reduced r)
    × Accounts notice (repeated 1500) 1200 r
unfolding budget_of
reduce-Accounts_example = reduce-Accounts notice (repeated 1500) 1200 (omega arith) (omega arith)

reduce_overflows_example : reduce notice (repeated 100) 64 ≡ overflowed
reduce_overflows_example = reduce_overflows notice (repeated 100) 64 (omega arith) (omega arith)
