-- ===== src/Sm5.antt =====
-- The shader model 5 backend: src/dxp/sm5. Sm5/Container, Sm5/Registers, Sm5/Declarations and Sm5/Tokens
-- are about ShaderProgram.cpp, Sm5/Operands about it and Model.cpp, Sm5/Roles about Model.cpp,
-- Sm5/AddResource about step/AddResourceStep.cpp, Sm5/Lookup about DeclarationIndex.hpp, and Sm5/Match
-- about step/common/Match.cpp.
pub mod Bytes
pub mod Container
pub mod Registers
pub mod Declarations
pub mod AddResource
pub mod Operands
pub mod Roles
pub mod Lookup
pub mod Match
pub mod Tokens
