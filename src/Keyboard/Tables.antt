-- ===== src/Keyboard/Tables.antt =====
-- src/scancodes.c: the rows of the switches of `ps2Set2ToUsb` that return a key, in their order.
use metal_to_app.Base.{ℕ, List, [], ◌∷◌, ◌++◌}
use metal_to_app.Keyboard.Keys.{
  key_0, key_1, key_2, key_3, key_4, key_5, key_6, key_7, key_8, key_9, key_a, key_apostrophe,
  key_b, key_backslash, key_backspace, key_c, key_capslock, key_comma, key_compose, key_d,
  key_delete, key_dot, key_down, key_e, key_end, key_enter, key_equal, key_esc, key_f, key_f1,
  key_f10, key_f11, key_f12, key_f2, key_f3, key_f4, key_f5, key_f6, key_f7, key_f8, key_f9, key_g,
  key_grave, key_h, key_home, key_i, key_insert, key_j, key_k, key_kp0, key_kp1, key_kp2, key_kp3,
  key_kp4, key_kp5, key_kp6, key_kp7, key_kp8, key_kp9, key_kpasterisk, key_kpdot, key_kpenter,
  key_kpminus, key_kpplus, key_kpslash, key_l, key_left, key_leftbrace, key_leftmeta, key_m,
  key_media_back, key_media_calc, key_media_coffee, key_media_forward, key_media_mute,
  key_media_nextsong, key_media_playpause, key_media_previoussong, key_media_refresh,
  key_media_sleep, key_media_stop, key_media_stopcd, key_media_volumedown, key_media_volumeup,
  key_media_www, key_minus, key_mod_lalt, key_mod_lctrl, key_mod_lshift, key_n, key_none,
  key_numlock, key_o, key_p, key_pagedown, key_pageup, key_power, key_q, key_r, key_right,
  key_rightalt, key_rightbrace, key_rightctrl, key_rightmeta, key_rightshift, key_s, key_scrolllock,
  key_semicolon, key_slash, key_space, key_t, key_tab, key_u, key_up, key_v, key_w, key_x, key_y,
  key_z,
}

-- `case 0x00` to `case 0x47` of the switch over one byte.
abbrev pub single_codes_low : List (ℕ × ℕ)
single_codes_low =
    (0x00, key_none)
    ∷ (0x01, key_f9)
    ∷ (0x02, key_none)
    ∷ (0x03, key_f5)
    ∷ (0x04, key_f3)
    ∷ (0x05, key_f1)
    ∷ (0x06, key_f2)
    ∷ (0x07, key_f12)
    ∷ (0x08, key_none)
    ∷ (0x09, key_f10)
    ∷ (0x0A, key_f8)
    ∷ (0x0B, key_f6)
    ∷ (0x0C, key_f4)
    ∷ (0x0D, key_tab)
    ∷ (0x0E, key_grave)
    ∷ (0x0F, key_none)
    ∷ (0x10, key_none)
    ∷ (0x11, key_mod_lalt)
    ∷ (0x12, key_mod_lshift)
    ∷ (0x13, key_none)
    ∷ (0x14, key_mod_lctrl)
    ∷ (0x15, key_q)
    ∷ (0x16, key_1)
    ∷ (0x17, key_none)
    ∷ (0x18, key_none)
    ∷ (0x19, key_none)
    ∷ (0x1A, key_z)
    ∷ (0x1B, key_s)
    ∷ (0x1C, key_a)
    ∷ (0x1D, key_w)
    ∷ (0x1E, key_2)
    ∷ (0x1F, key_none)
    ∷ (0x20, key_none)
    ∷ (0x21, key_c)
    ∷ (0x22, key_x)
    ∷ (0x23, key_d)
    ∷ (0x24, key_e)
    ∷ (0x25, key_4)
    ∷ (0x26, key_3)
    ∷ (0x27, key_none)
    ∷ (0x28, key_none)
    ∷ (0x29, key_space)
    ∷ (0x2A, key_v)
    ∷ (0x2B, key_f)
    ∷ (0x2C, key_t)
    ∷ (0x2D, key_r)
    ∷ (0x2E, key_5)
    ∷ (0x2F, key_none)
    ∷ (0x30, key_none)
    ∷ (0x31, key_n)
    ∷ (0x32, key_b)
    ∷ (0x33, key_h)
    ∷ (0x34, key_g)
    ∷ (0x35, key_y)
    ∷ (0x36, key_6)
    ∷ (0x37, key_none)
    ∷ (0x38, key_none)
    ∷ (0x39, key_none)
    ∷ (0x3A, key_m)
    ∷ (0x3B, key_j)
    ∷ (0x3C, key_u)
    ∷ (0x3D, key_7)
    ∷ (0x3E, key_8)
    ∷ (0x3F, key_none)
    ∷ (0x40, key_none)
    ∷ (0x41, key_comma)
    ∷ (0x42, key_k)
    ∷ (0x43, key_i)
    ∷ (0x44, key_o)
    ∷ (0x45, key_0)
    ∷ (0x46, key_9)
    ∷ (0x47, key_none)
    ∷ []

-- `case 0x48` to `case 0x8F` of the same switch.
abbrev pub single_codes_high : List (ℕ × ℕ)
single_codes_high =
    (0x48, key_none)
    ∷ (0x49, key_dot)
    ∷ (0x4A, key_slash)
    ∷ (0x4B, key_l)
    ∷ (0x4C, key_semicolon)
    ∷ (0x4D, key_p)
    ∷ (0x4E, key_minus)
    ∷ (0x4F, key_none)
    ∷ (0x50, key_none)
    ∷ (0x51, key_none)
    ∷ (0x52, key_apostrophe)
    ∷ (0x53, key_none)
    ∷ (0x54, key_leftbrace)
    ∷ (0x55, key_equal)
    ∷ (0x56, key_none)
    ∷ (0x57, key_none)
    ∷ (0x58, key_capslock)
    ∷ (0x59, key_rightshift)
    ∷ (0x5A, key_enter)
    ∷ (0x5B, key_rightbrace)
    ∷ (0x5C, key_none)
    ∷ (0x5D, key_backslash)
    ∷ (0x5E, key_none)
    ∷ (0x5F, key_none)
    ∷ (0x60, key_none)
    ∷ (0x61, key_none)
    ∷ (0x62, key_none)
    ∷ (0x63, key_none)
    ∷ (0x64, key_none)
    ∷ (0x65, key_none)
    ∷ (0x66, key_backspace)
    ∷ (0x67, key_none)
    ∷ (0x68, key_none)
    ∷ (0x69, key_kp1)
    ∷ (0x6A, key_none)
    ∷ (0x6B, key_kp4)
    ∷ (0x6C, key_kp7)
    ∷ (0x6D, key_none)
    ∷ (0x6E, key_none)
    ∷ (0x6F, key_none)
    ∷ (0x70, key_kp0)
    ∷ (0x71, key_kpdot)
    ∷ (0x72, key_kp2)
    ∷ (0x73, key_kp5)
    ∷ (0x74, key_kp6)
    ∷ (0x75, key_kp8)
    ∷ (0x76, key_esc)
    ∷ (0x77, key_numlock)
    ∷ (0x78, key_f11)
    ∷ (0x79, key_kpplus)
    ∷ (0x7A, key_kp3)
    ∷ (0x7B, key_kpminus)
    ∷ (0x7C, key_kpasterisk)
    ∷ (0x7D, key_kp9)
    ∷ (0x7E, key_scrolllock)
    ∷ (0x7F, key_none)
    ∷ (0x80, key_none)
    ∷ (0x81, key_none)
    ∷ (0x82, key_none)
    ∷ (0x83, key_f7)
    ∷ (0x84, key_none)
    ∷ (0x85, key_none)
    ∷ (0x86, key_none)
    ∷ (0x87, key_none)
    ∷ (0x88, key_none)
    ∷ (0x89, key_none)
    ∷ (0x8A, key_none)
    ∷ (0x8B, key_none)
    ∷ (0x8C, key_none)
    ∷ (0x8D, key_none)
    ∷ (0x8E, key_none)
    ∷ (0x8F, key_none)
    ∷ []

abbrev pub single_codes : List (ℕ × ℕ)
single_codes = single_codes_low ++ single_codes_high

-- The cases of the switch over two bytes of which the first is 0xE0.
abbrev pub extended_codes : List (ℕ × ℕ)
extended_codes =
    (0xE010, key_media_www)
    ∷ (0xE011, key_rightalt)
    ∷ (0xE014, key_rightctrl)
    ∷ (0xE015, key_media_previoussong)
    ∷ (0xE018, key_none)
    ∷ (0xE01F, key_leftmeta)
    ∷ (0xE020, key_media_refresh)
    ∷ (0xE021, key_media_volumedown)
    ∷ (0xE023, key_media_mute)
    ∷ (0xE027, key_rightmeta)
    ∷ (0xE028, key_media_stop)
    ∷ (0xE02B, key_media_calc)
    ∷ (0xE02F, key_compose)
    ∷ (0xE030, key_media_forward)
    ∷ (0xE032, key_media_volumeup)
    ∷ (0xE034, key_media_playpause)
    ∷ (0xE037, key_power)
    ∷ (0xE038, key_media_back)
    ∷ (0xE03A, key_none)
    ∷ (0xE03B, key_media_stopcd)
    ∷ (0xE03F, key_media_sleep)
    ∷ (0xE040, key_none)
    ∷ (0xE048, key_none)
    ∷ (0xE04A, key_kpslash)
    ∷ (0xE04D, key_media_nextsong)
    ∷ (0xE050, key_none)
    ∷ (0xE05A, key_kpenter)
    ∷ (0xE05E, key_media_coffee)
    ∷ (0xE069, key_end)
    ∷ (0xE06B, key_left)
    ∷ (0xE06C, key_home)
    ∷ (0xE070, key_insert)
    ∷ (0xE071, key_delete)
    ∷ (0xE072, key_down)
    ∷ (0xE074, key_right)
    ∷ (0xE075, key_up)
    ∷ (0xE07A, key_pagedown)
    ∷ (0xE07D, key_pageup)
    ∷ []
