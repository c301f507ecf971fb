-- ===== src/Witnesses.antt =====
-- Concrete inputs at which the theorems hold: test data, and small stand-ins for PyJWT, Redis and the
-- decoders, with proofs that they keep the laws that the theorems ask for.
mod Services
mod Contamination
mod Web
mod Rows
mod Registry
mod Versions
mod SignIn
mod Index
mod Callback
mod Documents
mod Operations
