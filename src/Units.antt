-- ===== src/Units.antt =====
-- The unit tests that stand in src, run on the model: a test is a Boolean, true where all of its
-- assertions hold. What a test takes of a crate (a digest, a country, a signature) is the value that
-- the test expects of it.
pub mod Assertions
pub mod Devices
pub mod Events
pub mod Answers
pub mod Contexts
pub mod Origins
pub mod Registries
pub mod Validations
pub mod Passing
