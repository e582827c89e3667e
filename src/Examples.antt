-- ===== src/Examples.antt =====
-- The theorems at concrete inputs: a primary, node 1, that has failed, and its standbys 2 and 3.
mod Data
mod Elections
mod Failovers
mod Memory
mod Checks
mod Texts
mod Monitoring
mod Primaries
mod Standbys
mod Configs
mod Clusters
mod Nodes
mod Params
mod Together
