-- ===== src/Discovery.antt =====
-- pkg/controller/discovery.go: what the maintenance API reports of a host, and the labels that are
-- promoted from it. Child modules: Quantity (the rounding of capacities), Disk (device names, the
-- system disk, RAID), Gpu (PCI devices), Numa (directory names), Labels (the byot.io/ labels).
pub mod Quantity
pub mod Disk
pub mod Gpu
pub mod Numa
pub mod Addresses
pub mod Parts
pub mod Run
pub mod Labels
