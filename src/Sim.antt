-- ===== src/Sim.antt =====
-- src/sim: the network, the node and the server of the simulation.
pub mod Random
pub mod Network
pub mod Node
pub mod Server
