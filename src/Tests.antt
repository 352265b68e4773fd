-- ===== src/Tests.antt =====
-- Concrete inputs for the theorems.
mod Codec
mod Ids
mod Queue
mod Objects
mod Rows
mod Deployment
mod Settings
mod Audits
mod Pools
mod Clusters
mod Servers
mod Accounts
mod Domains
mod Resources
