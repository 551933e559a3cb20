-- ===== src/Utils.antt =====
-- utils: keys of metrics and models, arithmetic on slices, maps, and the debug plot.
pub mod Keys
pub mod Slices
pub mod Maps
pub mod Plot
