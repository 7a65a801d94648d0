-- ===== src/Device.antt =====
-- Tags and their taps: services/core-facets/NfcValidationFacet.ts (Cmac), CryptoService.ts (Keys),
-- DeviceGuardFacet.ts (Guard) and DeviceRegistryFacet.ts (Registry).
pub mod Types
pub mod Cmac
pub mod Keys
pub mod Guard
pub mod Registry
pub mod Steps
pub mod Replay
pub mod Runs
pub mod Messages
mod Tests
