-- ===== src/Config.antt =====
-- include/core/config.hpp and src/core/config.cpp: the texts of the configuration. Strings are their
-- bytes. Reading the configuration file is not modelled.
pub mod Text
pub mod Endpoint
pub mod Hex
pub mod Ports
mod Tests
