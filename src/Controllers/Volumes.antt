-- ===== src/Controllers/Volumes.antt =====
-- The four reconcilers of volumes: volumebrokerlet/, proxyvolumebrokerlet/, partitionlet/ and
-- machinebrokerlet/, each in its folder controllers/storage.
pub mod Protocol
pub mod Volume
pub mod ProxyVolume
pub mod MixedVolume
pub mod OneWaySyncVolume
pub mod Shapes
