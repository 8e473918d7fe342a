-- ===== src/Text.antt =====
-- The strings that the program sorts: `Array.prototype.sort` with no comparator orders by code units.
pub mod Decimal
pub mod Order
pub mod Slots
