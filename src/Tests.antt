-- ===== src/Tests.antt =====
-- Tests of the definitions at concrete inputs, and the theorems applied at concrete inputs.
mod Encoders
mod Words
mod Keys
mod Generators
mod Texts
mod Buffers
