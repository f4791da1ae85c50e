-- ===== src/Textdiff.antt =====
-- internal/checkpoint/textdiff: line diffs and three-way merges.
pub mod Block
pub mod Range
pub mod Myers
pub mod Common
pub mod Diff
pub mod Merge
pub mod Lines
