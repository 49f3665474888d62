-- ===== src/Keyboard/Keys.antt =====
-- src/usb_hid_keys.h: the key codes, passed on from the children.
mod Main
mod Extra
pub use Main.*
pub use Extra.*
