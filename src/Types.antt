-- ===== src/Types.antt =====
-- The domain types of core/types.py.
--
-- Numbers. A `Decimal` that is never negative (a quantity, a price, a cost) is a natural
-- number of units of 10^-18, so `unit` is Decimal("1"); one that may be negative (a target weight, the
-- equity of a sleeve, a profit) is an integer of such units. Sums, differences and orders of Decimals are exact there; products are compared in
-- units of 10^-36. The 28 digits of Python's decimal context are taken as enough for sums and
-- products. A quotient is rounded half-even, as Python does, to a whole unit.
-- Time. A `datetime` is a number of microseconds in UTC, a `date` a number of days. A UUID is a
-- number.
mod Enums
mod Records
mod Symbols
mod Decimal
pub use Enums.*
unfoldable pub use Records.*
unfoldable pub use Symbols.*
unfoldable pub use Decimal.*
