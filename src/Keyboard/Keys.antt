-- ===== src/Keyboard/Keys.antt =====
-- The keys of src/kernel/io/keyboard.h, and the tables of keys and scan codes of keyboard.c.
use homemade_os.Base.{ℕ, List, [], ◌∷◌}

abbrev pub no_key : ℕ
no_key = 0

abbrev pub backspace : ℕ
backspace = 8

abbrev pub enter : ℕ
enter = 10

abbrev pub esc : ℕ
esc = 27

abbrev pub caps_lock : ℕ
caps_lock = 256

abbrev pub scroll_lock : ℕ
scroll_lock = 257

abbrev pub num_lock : ℕ
num_lock = 258

abbrev pub insert : ℕ
insert = 259

abbrev pub break : ℕ
break = 260

abbrev pub home : ℕ
home = 261

abbrev pub end : ℕ
end = 262

abbrev pub page_up : ℕ
page_up = 263

abbrev pub page_down : ℕ
page_down = 264

abbrev pub up : ℕ
up = 265

abbrev pub down : ℕ
down = 266

abbrev pub left : ℕ
left = 267

abbrev pub right : ℕ
right = 268

abbrev pub f1 : ℕ
f1 = 269

abbrev pub f2 : ℕ
f2 = 270

abbrev pub f3 : ℕ
f3 = 271

abbrev pub f4 : ℕ
f4 = 272

abbrev pub f5 : ℕ
f5 = 273

abbrev pub f6 : ℕ
f6 = 274

abbrev pub f7 : ℕ
f7 = 275

abbrev pub f8 : ℕ
f8 = 276

abbrev pub f9 : ℕ
f9 = 277

abbrev pub f10 : ℕ
f10 = 278

abbrev pub f11 : ℕ
f11 = 279

abbrev pub f12 : ℕ
f12 = 280

abbrev pub left_shift : ℕ
left_shift = 281

abbrev pub right_shift : ℕ
right_shift = 282

abbrev pub left_ctrl : ℕ
left_ctrl = 283

abbrev pub right_ctrl : ℕ
right_ctrl = 284

abbrev pub left_alt : ℕ
left_alt = 285

abbrev pub right_alt : ℕ
right_alt = 286

abbrev pub left_gui : ℕ
left_gui = 287

abbrev pub right_gui : ℕ
right_gui = 288

abbrev pub app : ℕ
app = 289

abbrev pub pad_asterisk : ℕ
pad_asterisk = 290

abbrev pub pad_divide : ℕ
pad_divide = 291

abbrev pub pad_plus : ℕ
pad_plus = 292

abbrev pub pad_minus : ℕ
pad_minus = 293

abbrev pub pad_0 : ℕ
pad_0 = 294

abbrev pub pad_1 : ℕ
pad_1 = 295

abbrev pub pad_2 : ℕ
pad_2 = 296

abbrev pub pad_3 : ℕ
pad_3 = 297

abbrev pub pad_4 : ℕ
pad_4 = 298

abbrev pub pad_5 : ℕ
pad_5 = 299

abbrev pub pad_6 : ℕ
pad_6 = 300

abbrev pub pad_7 : ℕ
pad_7 = 301

abbrev pub pad_8 : ℕ
pad_8 = 302

abbrev pub pad_9 : ℕ
pad_9 = 303

abbrev pub pad_enter : ℕ
pad_enter = 304

abbrev pub pad_dot : ℕ
pad_dot = 305

abbrev pub print_screen : ℕ
print_screen = 306

abbrev pub pause : ℕ
pause = 307

-- `scan1` without the row that ends it: a key and its scan code.
abbrev pub scan1 : List (ℕ × ℕ)
scan1 =
    (esc, 0x01)
    ∷ (f1, 0x3b)
    ∷ (f2, 0x3c)
    ∷ (f3, 0x3d)
    ∷ (f4, 0x3e)
    ∷ (f5, 0x3f)
    ∷ (f6, 0x40)
    ∷ (f7, 0x41)
    ∷ (f8, 0x42)
    ∷ (f9, 0x43)
    ∷ (f10, 0x44)
    ∷ (f11, 0x57)
    ∷ (f12, 0x58)
    ∷ (scroll_lock, 0x46)
    ∷ (b'`', 0x29)
    ∷ (b'1', 0x02)
    ∷ (b'2', 0x03)
    ∷ (b'3', 0x04)
    ∷ (b'4', 0x05)
    ∷ (b'5', 0x06)
    ∷ (b'6', 0x07)
    ∷ (b'7', 0x08)
    ∷ (b'8', 0x09)
    ∷ (b'9', 0x0a)
    ∷ (b'0', 0x0b)
    ∷ (b'-', 0x0c)
    ∷ (b'=', 0x0d)
    ∷ (backspace, 0x0e)
    ∷ (9, 0x0f)
    ∷ (b'q', 0x10)
    ∷ (b'w', 0x11)
    ∷ (b'e', 0x12)
    ∷ (b'r', 0x13)
    ∷ (b't', 0x14)
    ∷ (b'y', 0x15)
    ∷ (b'u', 0x16)
    ∷ (b'i', 0x17)
    ∷ (b'o', 0x18)
    ∷ (b'p', 0x19)
    ∷ (b'[', 0x1a)
    ∷ (b']', 0x1b)
    ∷ (92, 0x2b)
    ∷ (caps_lock, 0x3a)
    ∷ (b'a', 0x1e)
    ∷ (b's', 0x1f)
    ∷ (b'd', 0x20)
    ∷ (b'f', 0x21)
    ∷ (b'g', 0x22)
    ∷ (b'h', 0x23)
    ∷ (b'j', 0x24)
    ∷ (b'k', 0x25)
    ∷ (b'l', 0x26)
    ∷ (b';', 0x27)
    ∷ (39, 0x28)
    ∷ (enter, 0x1c)
    ∷ (left_shift, 0x2a)
    ∷ (b'z', 0x2c)
    ∷ (b'x', 0x2d)
    ∷ (b'c', 0x2e)
    ∷ (b'v', 0x2f)
    ∷ (b'b', 0x30)
    ∷ (b'n', 0x31)
    ∷ (b'm', 0x32)
    ∷ (b',', 0x33)
    ∷ (b'.', 0x34)
    ∷ (b'/', 0x35)
    ∷ (right_shift, 0x36)
    ∷ (left_ctrl, 0x1d)
    ∷ (left_alt, 0x38)
    ∷ (b' ', 0x39)
    ∷ (num_lock, 0x45)
    ∷ (pad_asterisk, 0x37)
    ∷ (pad_minus, 0x4a)
    ∷ (pad_plus, 0x4e)
    ∷ (pad_dot, 0x53)
    ∷ (pad_0, 0x52)
    ∷ (pad_1, 0x4f)
    ∷ (pad_2, 0x50)
    ∷ (pad_3, 0x51)
    ∷ (pad_4, 0x4b)
    ∷ (pad_5, 0x4c)
    ∷ (pad_6, 0x4d)
    ∷ (pad_7, 0x47)
    ∷ (pad_8, 0x48)
    ∷ (pad_9, 0x49)
    ∷ []

-- `scanE0`, likewise, of the codes behind 0xe0.
abbrev pub scan_e0 : List (ℕ × ℕ)
scan_e0 =
    (home, 0x47)
    ∷ (end, 0x4f)
    ∷ (page_up, 0x49)
    ∷ (page_down, 0x51)
    ∷ (up, 0x48)
    ∷ (down, 0x50)
    ∷ (left, 0x4b)
    ∷ (right, 0x4d)
    ∷ (pad_divide, 0x35)
    ∷ (pad_enter, 0x1c)
    ∷ (right_alt, 0x38)
    ∷ (right_ctrl, 0x1d)
    ∷ (insert, 0x52)
    ∷ (break, 0x53)
    ∷ (left_gui, 0x5b)
    ∷ (right_gui, 0x5c)
    ∷ (app, 0x5d)
    ∷ []
