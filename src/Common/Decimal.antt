-- ===== src/Common/Decimal.antt =====
-- Numbers printed in decimal, as `{}` prints them.
use Prim.Native.Nat.{ℕ, zero, suc, ◌+◌, ◌/◌, ◌%◌}
use mathlib.Core.List.{List, [], ◌∷◌}
use kitaebot.Common.Tests.{ltb, if◌then◌else◌}

-- The digits of `n` in front of `rest`; a fuel of `n` suffices, since each round divides by ten.
decimal_onto : ℕ → ℕ → List ℕ → List ℕ
decimal_onto zero n rest = (b'0' + n % 10) ∷ rest
decimal_onto (suc fuel) n rest =
    let more = decimal_onto fuel (n / 10) ((b'0' + n % 10) ∷ rest) in
    if ltb n 10 then (b'0' + n % 10) ∷ rest else more

unfoldable pub decimal : ℕ → List ℕ
unfolding decimal_onto
decimal n = decimal_onto n n []
