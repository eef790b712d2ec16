-- ===== src/Displays.antt =====
-- The layout of the displays (provisioning/graphics/browser-session.py): which output shows which view,
-- in which mode.
pub mod Modes
pub mod Outputs
pub mod Assignment
pub mod Plan
pub mod Placings
pub mod Layout
pub mod Shown
pub mod Connected
pub mod Wishes
pub mod Steps
pub mod Places
pub mod Views
pub mod Administration
mod Tests
mod Greatest
pub mod Best
