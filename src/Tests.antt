-- ===== src/Tests.antt =====
-- Runs of the model at concrete inputs, and the theorems at inputs that meet their hypotheses.
mod Queue
mod Sessions
mod Engines
mod Inputs
mod Shares
mod Hosts
mod Serving
mod Jobs
mod Calls
mod Connections
mod Clients
mod Machines
