-- ===== src/Examples/Runs.antt =====
-- A concrete run of each reconciler.
pub mod Secret
pub mod ConfigMap
pub mod Network
pub mod VirtualIp
pub mod NetworkInterface
pub mod Machine
pub mod AliasPrefix
pub mod NamespaceController
pub mod MachinePool
pub mod Volume
pub mod ProxyVolume
pub mod MixedVolume
pub mod OneWaySyncVolume
pub mod VolumePool
