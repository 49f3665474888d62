-- ===== src/Keyboard.antt =====
-- src/keyboard.c, scancodes.c and usb_hid_keys.h: the decoder of scan codes and the queue of keyboard
-- commands.
pub mod Tests
pub mod Keys
pub mod Tables
pub mod Decode
pub mod Presses
pub mod Distinct
pub mod Queue
pub mod Fifo
pub mod Ports
pub mod Polite
pub mod Replies
pub mod Setup
pub mod Reading
pub mod Rounds
pub mod Session
pub mod Loop
