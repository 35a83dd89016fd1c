-- ===== src/Models/Wiki.antt =====
-- models/wiki.py, by what the models are for.
pub mod Json
pub mod Inputs
pub mod Pages
pub mod Grids
mod Tests
