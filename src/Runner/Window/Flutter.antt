-- ===== src/Runner/Window/Flutter.antt =====
-- dart/example/windows/runner/flutter_window.cpp, and the functions of win32_window.cpp that call its
-- virtual functions: the window procedure, the creation and the destructors.
use ob_dump.Base.{ℕ, ◌-◌, List, Bool, true, false, Option, none, some, Bytes}
use ob_dump.Base.Int.{pos}
use ob_dump.Runner.{
  width_of, height_of, Message, wm_nccreate, wm_destroy, wm_size, wm_activate, wm_fontchange,
  wm_dwmcolorizationcolorchanged, wm_dpichanged, other, Class, flutter_window, win32_window,
  Program, Point, Size, Desktop, on_os, Doubles, Placement,
}
use ob_dump.Runner.Window.{
  scale, enable_full_dpi_support_if_available, get_window_class, update_theme, get_client_area,
  set_child_content, free_controller_of, destroy, message_handler,
}

module _ {Os : Type 0} (D : Desktop Os) where
  -- What OnCreate does with a controller that has an engine and a view.
  unfoldable pub start_view : ℕ → ℕ → Program Os → Program Os
  unfolding set_child_content
  start_view controller view p =
      on_os (λ os. D.force_redraw controller (D.set_next_frame_callback controller os))
        (set_child_content D view (on_os (D.register_plugins controller) p))

  unfoldable pub attach_view : Bool → Option ℕ → ℕ → Program Os → Bool × Program Os
  unfolding start_view
  attach_view true (some view) controller p = (true, start_view controller view p)
  attach_view true none controller p = (false, p)
  attach_view false view controller p = (false, p)

  -- What `make_unique` assigned to the pointer deletes.
  unfoldable pub replace_controller : Option ℕ → Os → Os
  replace_controller none os = os
  replace_controller (some previous) os = D.free_controller previous os

  -- FlutterWindow::OnCreate; Win32Window::OnCreate returns true.
  unfoldable pub on_create : Program Os → Bool × Program Os
  unfolding attach_view get_client_area replace_controller
  on_create p =
      let frame = get_client_area D p in
      let (controller, os) = D.make_controller (width_of frame) (height_of frame) p.project p.os in
      let ready = replace_controller p.flutter_controller os in
      attach_view (D.has_engine controller ready) (D.native_view controller ready) controller
        (record p { flutter_controller = some controller; os = ready })

  -- `flutter_controller_->engine()->ReloadSystemFonts()`: without a controller it follows a null
  -- pointer, and there is no result.
  unfoldable pub reload_fonts : ℕ → Option ℕ → Program Os → Option (ℕ × Program Os)
  unfolding message_handler
  reload_fonts hwnd none p = none
  reload_fonts hwnd (some controller) p =
      some (message_handler D hwnd wm_fontchange (on_os (D.reload_system_fonts controller) p))

  -- The switch of FlutterWindow::MessageHandler, and Win32Window's.
  unfoldable pub switch_message : ℕ → Message → Program Os → Option (ℕ × Program Os)
  unfolding reload_fonts message_handler
  switch_message hwnd wm_fontchange p = reload_fonts hwnd p.flutter_controller p
  switch_message hwnd wm_nccreate p = some (message_handler D hwnd wm_nccreate p)
  switch_message hwnd wm_destroy p = some (message_handler D hwnd wm_destroy p)
  switch_message hwnd wm_size p = some (message_handler D hwnd wm_size p)
  switch_message hwnd wm_activate p = some (message_handler D hwnd wm_activate p)
  switch_message hwnd wm_dwmcolorizationcolorchanged p =
      some (message_handler D hwnd wm_dwmcolorizationcolorchanged p)
  switch_message hwnd (wm_dpichanged rect) p = some (message_handler D hwnd (wm_dpichanged rect) p)
  switch_message hwnd (other message wparam lparam) p =
      some (message_handler D hwnd (other message wparam lparam) p)

  -- What follows the controller's own handling.
  unfoldable pub after_controller : Option ℕ → ℕ → Message → Program Os → Option (ℕ × Program Os)
  unfolding switch_message
  after_controller (some result) hwnd message p = some (result, p)
  after_controller none hwnd message p = switch_message hwnd message p

  unfoldable pub offer_controller : Option ℕ → ℕ → Message → Program Os → Option (ℕ × Program Os)
  unfolding switch_message after_controller
  offer_controller none hwnd message p = switch_message hwnd message p
  offer_controller (some controller) hwnd message p =
      let (result, os) = D.handle_top_level_window_proc controller hwnd message p.os in
      after_controller result hwnd message (record p { os = os })

  -- FlutterWindow::MessageHandler.
  unfoldable pub flutter_message_handler : ℕ → Message → Program Os → Option (ℕ × Program Os)
  unfolding offer_controller
  flutter_message_handler hwnd message p = offer_controller p.flutter_controller hwnd message p

  -- MessageHandler, by the object's class.
  unfoldable pub handle_message : Class → ℕ → Message → Program Os → Option (ℕ × Program Os)
  unfolding flutter_message_handler message_handler
  handle_message flutter_window hwnd message p = flutter_message_handler hwnd message p
  handle_message win32_window hwnd message p = some (message_handler D hwnd message p)

  -- The branch of WndProc for a window that GetThisFromHandle may know.
  unfoldable pub procedure_of : Bool → ℕ → Message → Program Os → Option (ℕ × Program Os)
  unfolding handle_message
  procedure_of true hwnd message p = handle_message p.class hwnd message p
  procedure_of false hwnd message p = some (D.def_window_proc (some hwnd) message p)

  -- WndProc on WM_NCCREATE: the window is the object's from here on.
  unfoldable pub adopt : ℕ → Program Os → Program Os
  unfolding enable_full_dpi_support_if_available
  adopt hwnd p = record p {
    window_handle = some hwnd;
    os = enable_full_dpi_support_if_available D hwnd (D.set_user_data hwnd p.os);
  }

  unfoldable pub wnd_proc : ℕ → Message → Program Os → Option (ℕ × Program Os)
  unfolding adopt procedure_of
  wnd_proc hwnd wm_nccreate p = some (D.def_window_proc (some hwnd) wm_nccreate (adopt hwnd p))
  wnd_proc hwnd wm_destroy p = procedure_of (D.has_user_data hwnd p.os) hwnd wm_destroy p
  wnd_proc hwnd wm_size p = procedure_of (D.has_user_data hwnd p.os) hwnd wm_size p
  wnd_proc hwnd wm_activate p = procedure_of (D.has_user_data hwnd p.os) hwnd wm_activate p
  wnd_proc hwnd wm_fontchange p = procedure_of (D.has_user_data hwnd p.os) hwnd wm_fontchange p
  wnd_proc hwnd wm_dwmcolorizationcolorchanged p =
      procedure_of (D.has_user_data hwnd p.os) hwnd wm_dwmcolorizationcolorchanged p
  wnd_proc hwnd (wm_dpichanged rect) p =
      procedure_of (D.has_user_data hwnd p.os) hwnd (wm_dpichanged rect) p
  wnd_proc hwnd (other message wparam lparam) p =
      procedure_of (D.has_user_data hwnd p.os) hwnd (other message wparam lparam) p

  -- Where the window goes: the scale is that of the monitor at the origin.
  unfoldable pub placement : {F : Type 0} → Doubles F → Point → Size → Os → Placement
  unfolding scale
  placement N origin size os =
      let monitor = D.monitor_from_point (pos origin.x) (pos origin.y) os in
      let factor = N.divide (N.of_uint (D.get_dpi_for_monitor monitor os)) N.ninety_six in
      record {
        at_x = scale N origin.x factor;
        at_y = scale N origin.y factor;
        wide = scale N size.width factor;
        high = scale N size.height factor;
      }

  -- Create, from what CreateWindow has returned.
  unfoldable pub opened : Option ℕ × Program Os → Bool × Program Os
  unfolding update_theme on_create
  opened (none, p) = (false, p)
  opened (some window, p) = on_create (on_os (update_theme D window) p)

  unfoldable pub create :
      {F : Type 0} → Doubles F → Bytes → Point → Size → Program Os → Bool × Program Os
  unfolding destroy get_window_class placement opened
  create N title origin size p =
      let ready = get_window_class D (destroy D p) in
      opened (D.create_window title (placement N origin size ready.os) ready)

  -- The constructors of Win32Window and FlutterWindow.
  unfoldable pub construct : List Bytes → Os → Program Os
  construct project os = record {
    class = flutter_window;
    window_handle = none;
    child_content = none;
    quit_on_close = false;
    project = project;
    flutter_controller = none;
    active_window_count = 1;
    class_registered = false;
    os = os;
  }

  -- The destructors: ~FlutterWindow frees the controller, and ~Win32Window, by then with the
  -- virtual functions of Win32Window, counts the window out and destroys it.
  unfoldable pub counted_out : Program Os → Program Os
  counted_out p = record p { class = win32_window; active_window_count = p.active_window_count - 1 }

  unfoldable pub destruct : Program Os → Program Os
  unfolding free_controller_of destroy counted_out
  destruct p = destroy D (counted_out (free_controller_of D p))
