-- ===== src/Examples.antt =====
-- A device, a network and an operating system that the parameters of the model can be, and the
-- theorems at concrete inputs.
mod Sim
mod Devices
mod Messages
mod Threads
mod Benches
mod Runs
mod Programs
mod Tools
