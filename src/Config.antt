-- ===== src/Config.antt =====
-- The values of src/config that need no file: the words of a switch, and the hosts that the server may be called.
pub mod Switches
pub mod Hosts
