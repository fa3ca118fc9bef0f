-- ===== src/Samples.antt =====
-- Small instances of what the theorems assume: a cluster, a sorter, an environment, a request.
pub mod Sorting
pub mod Clusters
pub mod Requests
pub mod Laws
