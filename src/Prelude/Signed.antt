-- ===== src/Prelude/Signed.antt =====
-- Signed sums and products: undefined behaviour, a fault, where they leave the range of their type.
use Prim.Native.Nat.{◌^◌}
use mathlib.Core.Bool.{Bool, ◌&&◌}
use l3_lock_free_orderbook_e.Prelude.Tests.{ltb, leb, if◌then◌else◌}
use l3_lock_free_orderbook_e.Prelude.Results.{Run, ok, fault}
use l3_lock_free_orderbook_e.Prelude.Int.{ℤ, pos_part, neg_part, fits_i64}

abbrev pub fits_i128 : ℤ → Bool
fits_i128 a = leb (neg_part a) (2 ^ 127) && ltb (pos_part a) (2 ^ 127)

abbrev pub checked64 : ℤ → Run ℤ
checked64 a = if fits_i64 a then ok a else fault

abbrev pub checked128 : ℤ → Run ℤ
checked128 a = if fits_i128 a then ok a else fault
