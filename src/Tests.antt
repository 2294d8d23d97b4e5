-- ===== src/Tests.antt =====
-- Runs of the definitions at concrete inputs, and the theorems at inputs that meet their
-- hypotheses.
mod Data
mod Program
mod Pods
mod Namespaces
mod Tools
mod Sets
mod Policies
mod Tables
mod Rules
mod Peers
mod Agents
