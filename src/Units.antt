-- ===== src/Units.antt =====
-- Units of measure (src/unit-of-measure), and the factor between two of them.
pub mod State
pub mod Factor
mod Ratios
mod Ends
mod Queried
mod Described
mod Links
mod Lineage
mod Inverse
mod Examples
