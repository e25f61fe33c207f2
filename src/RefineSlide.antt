-- ===== src/RefineSlide.antt =====
-- The image slider assets/js/jquery.refineslide.js of the client.
pub mod Grid
pub mod Transition
pub mod Rs
pub mod ImagesLoaded
pub mod Examples
