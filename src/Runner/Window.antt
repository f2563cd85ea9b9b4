-- ===== src/Runner/Window.antt =====
-- dart/example/windows/runner/win32_window.cpp: WindowClassRegistrar and the parts of Win32Window that
-- the window procedure is made of.
pub mod Flutter
pub mod Life
pub mod Destroyed
pub mod Handled
pub mod Kept
pub mod Alive
pub mod Session
use ob_dump.Base.{
  ℕ, zero, suc, ◌+◌, ◌-◌, List, [], Bool, true, false, not, ◌==◌, if◌then◌else◌, Option, none, some,
  Bytes,
}
use ob_dump.Base.Int.{ℤ}
use ob_dump.Runner.{
  Rect, width_of, height_of, Message, wm_nccreate, wm_destroy, wm_size, wm_activate, wm_fontchange,
  wm_dwmcolorizationcolorchanged, wm_dpichanged, other, Class, flutter_window, win32_window,
  Program, Desktop, on_os, Doubles,
}

-- Scale.
unfoldable pub scale : {F : Type 0} → Doubles F → ℕ → F → ℤ
scale N source factor = N.truncate (N.multiply (N.of_uint source) factor)

module _ {Os : Type 0} (D : Desktop Os) where
  unfoldable pub enable_full_dpi_support_if_available : ℕ → Os → Os
  enable_full_dpi_support_if_available hwnd os =
      let (found, loaded) = D.load_user32 os in
      if found
      then D.free_user32 (
          if D.has_non_client_scaling loaded
          then D.enable_non_client_dpi_scaling hwnd loaded
          else loaded)
      else loaded

  -- The registrar's GetWindowClass; the name that it returns is a constant.
  unfoldable pub get_window_class : Program Os → Program Os
  get_window_class p =
      if p.class_registered
      then p
      else record p { class_registered = true; os = D.register_class p.os }

  unfoldable pub unregister_window_class : Program Os → Program Os
  unregister_window_class p = record p { class_registered = false; os = D.unregister_class p.os }

  unfoldable pub update_theme : ℕ → Os → Os
  update_theme window os = elim (D.reg_get_light_mode os) [
    | none ↦ os
    | some light_mode ↦ D.set_dark_mode window (light_mode == 0) os
  ]

  unfoldable pub get_client_area : Program Os → Rect
  get_client_area p = D.get_client_rect p.window_handle p.os

  -- `MoveWindow` to the rectangle.
  abbrev pub move_to : ℕ → Rect → Os → Os
  move_to child rect = D.move_window child rect.left rect.top (width_of rect) (height_of rect)

  unfoldable pub set_child_content : ℕ → Program Os → Program Os
  unfolding get_client_area
  set_child_content content p =
      let q = record p {
        child_content = some content;
        os = D.set_parent content p.window_handle p.os;
      } in
      on_os (λ os. D.set_focus content (move_to content (get_client_area q) os)) q

  unfoldable pub set_quit_on_close : Bool → Program Os → Program Os
  set_quit_on_close quit_on_close p = record p { quit_on_close = quit_on_close }

  unfoldable pub get_handle : Program Os → Option ℕ
  get_handle p = p.window_handle

  unfoldable pub show : Program Os → Bool × Program Os
  show p = let (shown, os) = D.show_window p.window_handle p.os in (shown, record p { os = os })

  unfoldable pub free_controller : Option ℕ → Program Os → Program Os
  free_controller none p = p
  free_controller (some controller) p = record p {
    flutter_controller = none;
    os = D.free_controller controller p.os;
  }

  -- FlutterWindow::OnDestroy.
  unfoldable pub free_controller_of : Program Os → Program Os
  unfolding free_controller
  free_controller_of p = free_controller p.flutter_controller p

  -- OnDestroy, by the object's class: Win32Window's does nothing.
  unfoldable pub on_destroy_of : Class → Program Os → Program Os
  unfolding free_controller_of
  on_destroy_of flutter_window p = free_controller_of p
  on_destroy_of win32_window p = p

  unfoldable pub on_destroy : Program Os → Program Os
  unfolding on_destroy_of
  on_destroy p = on_destroy_of p.class p

  -- The window is destroyed while `window_handle_` still names it, and the procedure clears it too.
  unfoldable pub destroy_handle : Option ℕ → Program Os → Program Os
  destroy_handle none p = p
  destroy_handle (some handle) p = record (D.destroy_window handle p) { window_handle = none }

  unfoldable pub unregister_if_last : ℕ → Program Os → Program Os
  unfolding unregister_window_class
  unregister_if_last zero p = unregister_window_class p
  unregister_if_last (suc others) p = p

  unfoldable pub destroy : Program Os → Program Os
  unfolding on_destroy destroy_handle unregister_if_last
  destroy p =
      let freed = on_destroy p in
      let closed = destroy_handle freed.window_handle freed in
      unregister_if_last closed.active_window_count closed

  unfoldable pub post_quit_if : Bool → Program Os → Program Os
  post_quit_if true p = on_os D.post_quit_message p
  post_quit_if false p = p

  -- What is done to the child window, if there is one.
  unfoldable pub on_child : Option ℕ → (ℕ → Os → Os) → Program Os → Program Os
  on_child none f p = p
  on_child (some child) f p = on_os (f child) p

  -- Win32Window::MessageHandler.
  unfoldable pub message_handler : ℕ → Message → Program Os → ℕ × Program Os
  unfolding destroy post_quit_if update_theme on_child get_client_area
  message_handler hwnd wm_destroy p =
      let destroyed = destroy (record p { window_handle = none }) in
      (0, post_quit_if destroyed.quit_on_close destroyed)
  message_handler hwnd (wm_dpichanged rect) p =
      (0, on_os (D.set_window_pos hwnd rect.left rect.top (width_of rect) (height_of rect)) p)
  message_handler hwnd wm_size p =
      let rect = get_client_area p in (0, on_child p.child_content (λ child. move_to child rect) p)
  message_handler hwnd wm_activate p = (0, on_child p.child_content D.set_focus p)
  message_handler hwnd wm_dwmcolorizationcolorchanged p = (0, on_os (update_theme hwnd) p)
  message_handler hwnd wm_nccreate p = D.def_window_proc p.window_handle wm_nccreate p
  message_handler hwnd wm_fontchange p = D.def_window_proc p.window_handle wm_fontchange p
  message_handler hwnd (other message wparam lparam) p =
      D.def_window_proc p.window_handle (other message wparam lparam) p
