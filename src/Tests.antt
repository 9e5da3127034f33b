-- ===== src/Tests.antt =====
-- Concrete objects and runs: the theorems of the other modules at inputs where their hypotheses hold.
mod World
mod Objects
mod Workload
mod Registry
mod Claims
mod Machines
mod Tables
mod Small
mod Discovery
mod Yaml
mod Config
mod Upgrade
mod Direct
mod Cycle
mod Quiet
mod Credentials
mod Succeeds
