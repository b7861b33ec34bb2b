-- ===== src/Backends.antt =====
-- The clients of Sources (internal/clients/http/sources) and of Image Builder
-- (internal/clients/http/image_builder): the code above the generated HTTP clients, whose answers are
-- parameters.
pub mod Outcome
pub mod Sources
pub mod ImageBuilder
