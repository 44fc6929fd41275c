-- ===== src/Display.antt =====
-- The small parts of the screen: frontend/src/components/AnimatedNumber.tsx, SystemHealthPanel.tsx
-- and LoginModal.tsx, and frontend/src/lib/motion.ts.
pub mod Throttle
pub mod Health
pub mod Motion
pub mod Modal
pub mod Cells
mod Tests
