-- ===== src/Engine/Footer.antt =====
-- engine/footer.go: the footer and the images that carry it.
mod Defs
mod Laws
unfoldable pub use Defs.*
pub use Laws.*
