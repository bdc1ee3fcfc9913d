-- ===== src/Engine.antt =====
-- src/dxp/RecipeEngine.hpp: the step loop that both shader models share, over a backend.
-- Messages to the log sink and the text of the summary are left out.
pub mod Context
pub mod Loop
pub mod Counts
pub mod Modified
pub mod Order
pub mod Induction
pub mod Exports
pub mod Environment
