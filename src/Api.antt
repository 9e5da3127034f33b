-- ===== src/Api.antt =====
-- The API objects of api/v1alpha1 and the parts of the Kubernetes objects that the controllers
-- read. Child modules: the metadata and conditions (Meta), ByotHost (Host), ByotMachine (Machine)
-- and the objects of Cluster API and of the workload cluster (Cluster).
pub mod Meta
pub mod Host
pub mod Machine
pub mod Cluster
