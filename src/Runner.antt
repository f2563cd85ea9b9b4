-- ===== src/Runner.antt =====
-- dart/example/windows/runner: the types of the example's program for Windows, with the calls of
-- Win32 and of Flutter as parameters.
pub mod Window
pub mod Arguments
pub mod Main
pub mod Linux
pub mod Closing
pub mod Crash
pub mod Whole
use ob_dump.Base.{ℕ, List, Bool, Option, Bytes}
use ob_dump.Base.Int.{ℤ, ◌-ℤ◌}

-- A `RECT`, of 32-bit LONGs.
pub record Rect : Type 0 where
  pub left : ℤ
  pub top : ℤ
  pub right : ℤ
  pub bottom : ℤ

-- `rect.right - rect.left` and `rect.bottom - rect.top`. The rectangles are of a screen: the
-- differences stay within a LONG.
abbrev pub width_of : Rect → ℤ
unfolding ◌-ℤ◌
width_of rect = rect.right -ℤ rect.left

abbrev pub height_of : Rect → ℤ
unfolding ◌-ℤ◌
height_of rect = rect.bottom -ℤ rect.top

-- The messages that the program tells apart. `other` holds the number of any other message, and
-- its two parameters.
pub data Message : Type 0 where
  wm_nccreate wm_destroy wm_size wm_activate wm_fontchange : Message
  wm_dwmcolorizationcolorchanged : Message
  wm_dpichanged : Rect → Message
  other : ℕ → ℕ → ℕ → Message

-- Which class's virtual functions the object has: those of FlutterWindow until its destructor
-- has run, then those of Win32Window.
pub data Class : Type 0 where
  flutter_window win32_window : Class

-- The program's one window object, `g_active_window_count`, the registrar's flag, and what is
-- the system's.
pub record Program (Os : Type 0) : Type 0 where
  pub class : Class
  pub window_handle : Option ℕ
  pub child_content : Option ℕ
  pub quit_on_close : Bool
  pub project : List Bytes
  pub flutter_controller : Option ℕ
  pub active_window_count : ℕ
  pub class_registered : Bool
  pub os : Os

pub record Point : Type 0 where
  pub x : ℕ
  pub y : ℕ

pub record Size : Type 0 where
  pub width : ℕ
  pub height : ℕ

-- The rectangle that CreateWindow gets.
pub record Placement : Type 0 where
  pub at_x : ℤ
  pub at_y : ℤ
  pub wide : ℤ
  pub high : ℤ

-- The processor's doubles.
pub record Doubles (F : Type 0) : Type 0 where
  pub of_uint : ℕ → F
  pub ninety_six : F
  pub divide : F → F → F
  pub multiply : F → F → F
  pub truncate : F → ℤ

-- Win32 and the Flutter engine. A call that can have the window created, destroyed or sent an
-- arbitrary message gets the whole program, since the window procedure runs before it returns; what
-- the others send back is handled without a write to the program's own fields, and is a part of
-- what they do to the system.
pub record Desktop (Os : Type 0) : Type 0 where
  pub load_user32 : Os → Bool × Os
  pub has_non_client_scaling : Os → Bool
  pub enable_non_client_dpi_scaling : ℕ → Os → Os
  pub free_user32 : Os → Os
  pub register_class : Os → Os
  pub unregister_class : Os → Os
  pub monitor_from_point : ℤ → ℤ → Os → ℕ
  pub get_dpi_for_monitor : ℕ → Os → ℕ
  pub create_window : Bytes → Placement → Program Os → Option ℕ × Program Os
  pub destroy_window : ℕ → Program Os → Program Os
  pub def_window_proc : Option ℕ → Message → Program Os → ℕ × Program Os
  pub show_window : Option ℕ → Os → Bool × Os
  pub set_user_data : ℕ → Os → Os
  pub has_user_data : ℕ → Os → Bool
  pub set_window_pos : ℕ → ℤ → ℤ → ℤ → ℤ → Os → Os
  pub move_window : ℕ → ℤ → ℤ → ℤ → ℤ → Os → Os
  pub get_client_rect : Option ℕ → Os → Rect
  pub set_parent : ℕ → Option ℕ → Os → Os
  pub set_focus : ℕ → Os → Os
  pub post_quit_message : Os → Os
  pub reg_get_light_mode : Os → Option ℕ
  pub set_dark_mode : ℕ → Bool → Os → Os
  pub make_controller : ℤ → ℤ → List Bytes → Os → ℕ × Os
  pub has_engine : ℕ → Os → Bool
  pub native_view : ℕ → Os → Option ℕ
  pub register_plugins : ℕ → Os → Os
  pub set_next_frame_callback : ℕ → Os → Os
  pub force_redraw : ℕ → Os → Os
  pub free_controller : ℕ → Os → Os
  pub handle_top_level_window_proc : ℕ → ℕ → Message → Os → Option ℕ × Os
  pub reload_system_fonts : ℕ → Os → Os

module _ {Os : Type 0} where
  abbrev pub on_os : (Os → Os) → Program Os → Program Os
  on_os f p = record p { os = f p.os }
