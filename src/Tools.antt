-- ===== src/Tools.antt =====
-- The tools of open-webbridge-extension/src/tools that act on a page.
pub mod Page
pub mod Elements
pub mod Interact
pub mod Input
pub mod Outline
pub mod Reading
pub mod Emulate
pub mod Downloads
pub mod Overrides
pub mod Listing
pub mod Runs
pub mod Sequences
pub mod Tapping
pub mod References
mod Examples
