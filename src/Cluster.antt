-- ===== src/Cluster.antt =====
-- The sheets of web/src/components/k8s that show one object of a cluster: NodeDetail.tsx, PodDetail.tsx,
-- WorkloadDetail.tsx, SecretDetail.tsx and ServiceDetail.tsx; and the lists beside them. Their queries and mutations are those of
-- Queries; an answer arrives as an event for the mutation that is pending.
pub mod Lists
pub mod Listing
pub mod Kinds
pub mod Page
pub mod Node
pub mod Pod
pub mod Workload
pub mod Secret
pub mod Service
