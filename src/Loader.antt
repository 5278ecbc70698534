-- ===== src/Loader.antt =====
-- src/config/loader.cpp: reading and validating a config file.
pub mod Errors
pub mod Ip
pub mod Scalars
pub mod Parts
pub mod Forwards
pub mod Validate
pub mod Extends
pub mod Load
