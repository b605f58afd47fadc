-- ===== src/Core.antt =====
-- packages/core/src: the container, which creates injectables and disposes them.
pub mod Injectables
pub mod Resolution
pub mod Disposal
mod Tests
