-- ===== src/Tests.antt =====
-- The code run on concrete inputs, and the theorems at inputs that meet their hypotheses.
mod Instances
mod Frames
mod Protocol
mod Services
mod Clients
mod Gateway
mod Program
mod Packets
mod Faults
mod Peers
mod Daemons
