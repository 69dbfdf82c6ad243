-- ===== src/Cloak.antt =====
-- path_oram_Cloak_Query/: the ORAM of shares, where it goes beyond path-oram/.
pub mod Containers
pub mod Macs
pub mod Stash
