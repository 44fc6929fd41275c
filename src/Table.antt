-- ===== src/Table.antt =====
-- frontend/src/components/ThreatTable.tsx: which alerts the table shows (Filter), the pause of the
-- stream under the pointer (Pause), the highlight of new rows (Fresh), and what a row shows (Row).
pub mod Filter
pub mod FilterLaws
pub mod Pause
pub mod Fresh
pub mod Row
pub mod Menu
pub mod Body
pub mod View
pub mod Toolbar
mod Tests
