-- ===== src/Examples.antt =====
-- Runs of the definitions on small inputs, and the theorems at inputs that meet their hypotheses.
mod Data
mod Texts
mod Proxying
mod Origins
mod Decoding
mod Hubs
mod Interleavings
mod Streams
mod Sinks
mod Takeovers
mod Leaves
mod Authorities
mod Printing
mod Simulators
mod Serving
mod Lost
