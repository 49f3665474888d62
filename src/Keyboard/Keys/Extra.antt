-- ===== src/Keyboard/Keys/Extra.antt =====
-- src/usb_hid_keys.h: the codes of the other keys that the decoder returns.
use Prim.Native.Nat.{ℕ}

abbrev pub key_pagedown : ℕ
key_pagedown = 0x4e

abbrev pub key_right : ℕ
key_right = 0x4f

abbrev pub key_left : ℕ
key_left = 0x50

abbrev pub key_down : ℕ
key_down = 0x51

abbrev pub key_up : ℕ
key_up = 0x52

abbrev pub key_numlock : ℕ
key_numlock = 0x53

abbrev pub key_kpslash : ℕ
key_kpslash = 0x54

abbrev pub key_kpasterisk : ℕ
key_kpasterisk = 0x55

abbrev pub key_kpminus : ℕ
key_kpminus = 0x56

abbrev pub key_kpplus : ℕ
key_kpplus = 0x57

abbrev pub key_kpenter : ℕ
key_kpenter = 0x58

abbrev pub key_kp1 : ℕ
key_kp1 = 0x59

abbrev pub key_kp2 : ℕ
key_kp2 = 0x5a

abbrev pub key_kp3 : ℕ
key_kp3 = 0x5b

abbrev pub key_kp4 : ℕ
key_kp4 = 0x5c

abbrev pub key_kp5 : ℕ
key_kp5 = 0x5d

abbrev pub key_kp6 : ℕ
key_kp6 = 0x5e

abbrev pub key_kp7 : ℕ
key_kp7 = 0x5f

abbrev pub key_kp8 : ℕ
key_kp8 = 0x60

abbrev pub key_kp9 : ℕ
key_kp9 = 0x61

abbrev pub key_kp0 : ℕ
key_kp0 = 0x62

abbrev pub key_kpdot : ℕ
key_kpdot = 0x63

abbrev pub key_compose : ℕ
key_compose = 0x65

abbrev pub key_power : ℕ
key_power = 0x66

abbrev pub key_leftmeta : ℕ
key_leftmeta = 0xe3

abbrev pub key_rightctrl : ℕ
key_rightctrl = 0xe4

abbrev pub key_rightshift : ℕ
key_rightshift = 0xe5

abbrev pub key_rightalt : ℕ
key_rightalt = 0xe6

abbrev pub key_rightmeta : ℕ
key_rightmeta = 0xe7

abbrev pub key_media_playpause : ℕ
key_media_playpause = 0xe8

abbrev pub key_media_stopcd : ℕ
key_media_stopcd = 0xe9

abbrev pub key_media_previoussong : ℕ
key_media_previoussong = 0xea

abbrev pub key_media_nextsong : ℕ
key_media_nextsong = 0xeb

abbrev pub key_media_volumeup : ℕ
key_media_volumeup = 0xed

abbrev pub key_media_volumedown : ℕ
key_media_volumedown = 0xee

abbrev pub key_media_mute : ℕ
key_media_mute = 0xef

abbrev pub key_media_www : ℕ
key_media_www = 0xf0

abbrev pub key_media_back : ℕ
key_media_back = 0xf1

abbrev pub key_media_forward : ℕ
key_media_forward = 0xf2

abbrev pub key_media_stop : ℕ
key_media_stop = 0xf3

abbrev pub key_media_sleep : ℕ
key_media_sleep = 0xf8

abbrev pub key_media_coffee : ℕ
key_media_coffee = 0xf9

abbrev pub key_media_refresh : ℕ
key_media_refresh = 0xfa

abbrev pub key_media_calc : ℕ
key_media_calc = 0xfb
