-- ===== src/Prelude/Decimal.antt =====
-- `std::to_string` of a number that is not negative: its decimals, without leading zeros.
use Prim.Native.Nat.{ℕ, zero, suc, ◌/◌, ◌%◌}
use Prim.Native.String.{String, ◌++◌, slice}
use nat_data_collector.Prelude.Tests.{ltb, if◌then◌else◌}

abbrev pub digit : ℕ → String
digit d = slice "0123456789" d (suc d)

-- The digits of `n` in front of a text; a number needs no more rounds than its value plus one.
unfoldable pub digits : ℕ → ℕ → String → String
digits zero n text = text
digits (suc f) n text =
    let rest = digits f (n / 10) (digit (n % 10) ++ text) in
    if ltb n 10 then digit (n % 10) ++ text else rest

unfoldable pub to_string : ℕ → String
unfolding digits
to_string n = digits (suc n) n ""
