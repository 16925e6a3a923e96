-- ===== src/Pci.antt =====
-- src/pci_config.rs: GPU families, configuration space access, BAR decoding, and the bus scan.
pub mod Family
pub mod Config
pub mod Bar
pub mod Scan
