-- ===== src/Gateway.antt =====
-- secure-framework: the gateway between the SDN controller and the LEAF switches.
pub mod Roles
pub mod Session
pub mod Pool
pub mod Adapter
pub mod Netconf
pub mod Rest
pub mod Gnmi
