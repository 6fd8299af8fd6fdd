-- ===== src/Models.antt =====
-- app/models: what a model is trained on.
pub mod Features
pub mod Labels
pub mod Dataset
pub mod Quant
pub mod Training
