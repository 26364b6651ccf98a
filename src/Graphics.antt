-- ===== src/Graphics.antt =====
-- What the kernel draws: drivers/framebuffer.cpp, graphics/draw_util.cpp and kernel_ui.cpp.
pub mod Framebuffer
pub mod Font
pub mod Text
pub mod Line
pub mod Console
pub mod Examples
