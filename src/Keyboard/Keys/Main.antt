-- ===== src/Keyboard/Keys/Main.antt =====
-- src/usb_hid_keys.h: the modifier masks and the codes of the letters, digits and function keys that
-- the decoder returns.
use Prim.Native.Nat.{ℕ}

abbrev pub key_mod_lctrl : ℕ
key_mod_lctrl = 0x01

abbrev pub key_mod_lshift : ℕ
key_mod_lshift = 0x02

abbrev pub key_mod_lalt : ℕ
key_mod_lalt = 0x04

abbrev pub key_none : ℕ
key_none = 0x00

abbrev pub key_a : ℕ
key_a = 0x04

abbrev pub key_b : ℕ
key_b = 0x05

abbrev pub key_c : ℕ
key_c = 0x06

abbrev pub key_d : ℕ
key_d = 0x07

abbrev pub key_e : ℕ
key_e = 0x08

abbrev pub key_f : ℕ
key_f = 0x09

abbrev pub key_g : ℕ
key_g = 0x0a

abbrev pub key_h : ℕ
key_h = 0x0b

abbrev pub key_i : ℕ
key_i = 0x0c

abbrev pub key_j : ℕ
key_j = 0x0d

abbrev pub key_k : ℕ
key_k = 0x0e

abbrev pub key_l : ℕ
key_l = 0x0f

abbrev pub key_m : ℕ
key_m = 0x10

abbrev pub key_n : ℕ
key_n = 0x11

abbrev pub key_o : ℕ
key_o = 0x12

abbrev pub key_p : ℕ
key_p = 0x13

abbrev pub key_q : ℕ
key_q = 0x14

abbrev pub key_r : ℕ
key_r = 0x15

abbrev pub key_s : ℕ
key_s = 0x16

abbrev pub key_t : ℕ
key_t = 0x17

abbrev pub key_u : ℕ
key_u = 0x18

abbrev pub key_v : ℕ
key_v = 0x19

abbrev pub key_w : ℕ
key_w = 0x1a

abbrev pub key_x : ℕ
key_x = 0x1b

abbrev pub key_y : ℕ
key_y = 0x1c

abbrev pub key_z : ℕ
key_z = 0x1d

abbrev pub key_1 : ℕ
key_1 = 0x1e

abbrev pub key_2 : ℕ
key_2 = 0x1f

abbrev pub key_3 : ℕ
key_3 = 0x20

abbrev pub key_4 : ℕ
key_4 = 0x21

abbrev pub key_5 : ℕ
key_5 = 0x22

abbrev pub key_6 : ℕ
key_6 = 0x23

abbrev pub key_7 : ℕ
key_7 = 0x24

abbrev pub key_8 : ℕ
key_8 = 0x25

abbrev pub key_9 : ℕ
key_9 = 0x26

abbrev pub key_0 : ℕ
key_0 = 0x27

abbrev pub key_enter : ℕ
key_enter = 0x28

abbrev pub key_esc : ℕ
key_esc = 0x29

abbrev pub key_backspace : ℕ
key_backspace = 0x2a

abbrev pub key_tab : ℕ
key_tab = 0x2b

abbrev pub key_space : ℕ
key_space = 0x2c

abbrev pub key_minus : ℕ
key_minus = 0x2d

abbrev pub key_equal : ℕ
key_equal = 0x2e

abbrev pub key_leftbrace : ℕ
key_leftbrace = 0x2f

abbrev pub key_rightbrace : ℕ
key_rightbrace = 0x30

abbrev pub key_backslash : ℕ
key_backslash = 0x31

abbrev pub key_semicolon : ℕ
key_semicolon = 0x33

abbrev pub key_apostrophe : ℕ
key_apostrophe = 0x34

abbrev pub key_grave : ℕ
key_grave = 0x35

abbrev pub key_comma : ℕ
key_comma = 0x36

abbrev pub key_dot : ℕ
key_dot = 0x37

abbrev pub key_slash : ℕ
key_slash = 0x38

abbrev pub key_capslock : ℕ
key_capslock = 0x39

abbrev pub key_f1 : ℕ
key_f1 = 0x3a

abbrev pub key_f2 : ℕ
key_f2 = 0x3b

abbrev pub key_f3 : ℕ
key_f3 = 0x3c

abbrev pub key_f4 : ℕ
key_f4 = 0x3d

abbrev pub key_f5 : ℕ
key_f5 = 0x3e

abbrev pub key_f6 : ℕ
key_f6 = 0x3f

abbrev pub key_f7 : ℕ
key_f7 = 0x40

abbrev pub key_f8 : ℕ
key_f8 = 0x41

abbrev pub key_f9 : ℕ
key_f9 = 0x42

abbrev pub key_f10 : ℕ
key_f10 = 0x43

abbrev pub key_f11 : ℕ
key_f11 = 0x44

abbrev pub key_f12 : ℕ
key_f12 = 0x45

abbrev pub key_sysrq : ℕ
key_sysrq = 0x46

abbrev pub key_scrolllock : ℕ
key_scrolllock = 0x47

abbrev pub key_pause : ℕ
key_pause = 0x48

abbrev pub key_insert : ℕ
key_insert = 0x49

abbrev pub key_home : ℕ
key_home = 0x4a

abbrev pub key_pageup : ℕ
key_pageup = 0x4b

abbrev pub key_delete : ℕ
key_delete = 0x4c

abbrev pub key_end : ℕ
key_end = 0x4d
