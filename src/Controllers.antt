-- ===== src/Controllers.antt =====
-- The reconcilers under broker/controllers/.
pub mod Common
pub mod Secret
pub mod ConfigMap
pub mod Obeys
pub mod Apply
pub mod Network
pub mod VirtualIp
pub mod NetworkInterface
pub mod MachineMutations
pub mod Machine
pub mod AliasPrefix
pub mod AliasPrefixRouting
pub mod NamespaceController
pub mod VolumeAppliers
pub mod Access
pub mod Volumes
pub mod MachinePool
pub mod VolumePool
