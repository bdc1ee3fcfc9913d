-- ===== src/Tests.antt =====
-- Concrete inputs: what the definitions compute on them.
mod Containers
mod Declarations
mod Shaders
mod Digests
mod Layouts
mod Operands
mod Matches
mod Lookups
mod Roles
mod Conditions
mod Runs
mod Textures
mod Slots
mod Checks
mod Stores
