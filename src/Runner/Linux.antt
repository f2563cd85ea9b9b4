-- ===== src/Runner/Linux.antt =====
-- dart/example/linux/runner: my_application.cc and main.cc, with GTK, GLib and Flutter as parameters.
pub mod FirstFrame
use ob_dump.Base.{
  ℕ, List, ◌++◌, Bool, true, false, not, ◌&&◌, eqb, if◌then◌else◌, Option, none, some, Bytes, codes,
}

-- Widgets, projects and views are numbers. `register` returns the message of the error that it
-- set.
pub record Gtk (Os : Type 0) : Type 0 where
  pub application_window_new : Os → ℕ × Os
  pub built_for_x11 : Bool
  pub is_x11_screen : ℕ → Os → Bool
  pub window_manager_name : ℕ → Os → Option Bytes
  pub header_bar_new : Os → ℕ × Os
  pub widget_show : ℕ → Os → Os
  pub get_toplevel : ℕ → Os → ℕ
  pub header_bar_set_title : ℕ → Bytes → Os → Os
  pub header_bar_set_show_close_button : ℕ → Bool → Os → Os
  pub window_set_titlebar : ℕ → ℕ → Os → Os
  pub window_set_title : ℕ → Bytes → Os → Os
  pub window_set_default_size : ℕ → ℕ → ℕ → Os → Os
  pub dart_project_new : Os → ℕ × Os
  pub set_dart_entrypoint_arguments : ℕ → Option (List Bytes) → Os → Os
  pub view_new : ℕ → Os → ℕ × Os
  pub set_background_color : ℕ → Bytes → Os → Os
  pub container_add : ℕ → ℕ → Os → Os
  pub connect_first_frame : ℕ → Os → Os
  pub widget_realize : ℕ → Os → Os
  pub register_plugins : ℕ → Os → Os
  pub widget_grab_focus : ℕ → Os → Os
  pub project_unref : ℕ → Os → Os
  pub register : Os → Option Bytes × Os
  pub activate_signal : Os → Os
  pub warning : Bytes → Os → Os
  pub set_prgname : Bytes → Os → Os
  pub parent_startup : Os → Os
  pub parent_shutdown : Os → Os
  pub parent_dispose : Os → Os

-- `_MyApplication`, beside what is the system's.
pub record MyApplication (Os : Type 0) : Type 0 where
  pub dart_entrypoint_arguments : Option (List Bytes)
  pub os : Os

abbrev pub application_title : Bytes
application_title = codes "ob_dump_example"

-- `g_strcmp0(wm_name, "GNOME Shell") == 0`.
abbrev pub is_gnome_shell : Option Bytes → Bool
is_gnome_shell none = false
is_gnome_shell (some name) = eqb name (codes "GNOME Shell")

module _ {Os : Type 0} (G : Gtk Os) where
  abbrev pub on_os : (Os → Os) → MyApplication Os → MyApplication Os
  on_os f app = record app { os = f app.os }

  unfoldable pub first_frame_cb : ℕ → Os → Os
  first_frame_cb view os = G.widget_show (G.get_toplevel view os) os

  unfoldable pub use_header_bar : ℕ → Os → Bool
  use_header_bar window os = not (
      G.built_for_x11
      && (G.is_x11_screen window os && not (is_gnome_shell (G.window_manager_name window os))))

  unfoldable pub set_header_bar : ℕ → Os → Os
  set_header_bar window os =
      let (header_bar, made) = G.header_bar_new os in
      G.window_set_titlebar window header_bar (
        G.header_bar_set_show_close_button header_bar true
          (G.header_bar_set_title header_bar application_title (G.widget_show header_bar made)))

  unfoldable pub set_title : ℕ → Os → Os
  unfolding use_header_bar set_header_bar
  set_title window os =
      if use_header_bar window os
      then set_header_bar window os
      else G.window_set_title window application_title os

  -- The view, from its making to the end of the function.
  unfoldable pub show_view : ℕ → ℕ → Os → Os
  show_view window view os = G.widget_grab_focus view (
      G.register_plugins view (
        G.widget_realize view (
          G.connect_first_frame view (
            G.container_add window view
              (G.widget_show view (G.set_background_color view (codes "#000000") os))))))

  unfoldable pub my_application_activate : MyApplication Os → MyApplication Os
  unfolding set_title show_view
  my_application_activate app =
      let (window, made) = G.application_window_new app.os in
      let sized = G.window_set_default_size window 1280 720 (set_title window made) in
      let (project, ready) = G.dart_project_new sized in
      let (view, viewed) =
        G.view_new project
          (G.set_dart_entrypoint_arguments project app.dart_entrypoint_arguments ready) in
      record app { os = G.project_unref project (show_view window view viewed) }

  -- What g_application_activate runs: the signal's other work, then the class's function.
  abbrev pub activate : MyApplication Os → MyApplication Os
  unfolding my_application_activate
  activate app = my_application_activate (on_os G.activate_signal app)

  -- The exit status beside the result, after the registration.
  unfoldable pub after_register : Option Bytes → MyApplication Os → ℕ × MyApplication Os
  unfolding activate my_application_activate
  after_register (some message) app =
      (1, on_os (G.warning (codes "Failed to register: " ++ message)) app)
  after_register none app = (0, activate app)

  -- The arguments are those of a process, so there is a first one, which is the binary's name. The
  -- function always returns TRUE.
  unfoldable pub my_application_local_command_line :
      Bytes → List Bytes → MyApplication Os → ℕ × MyApplication Os
  unfolding after_register
  my_application_local_command_line binary_name arguments app =
      let (error, registered) = G.register app.os in
      after_register error
        (record app { dart_entrypoint_arguments = some arguments; os = registered })

  unfoldable pub my_application_startup : MyApplication Os → MyApplication Os
  my_application_startup app = on_os G.parent_startup app

  unfoldable pub my_application_shutdown : MyApplication Os → MyApplication Os
  my_application_shutdown app = on_os G.parent_shutdown app

  unfoldable pub my_application_dispose : MyApplication Os → MyApplication Os
  my_application_dispose app = record app {
    dart_entrypoint_arguments = none;
    os = G.parent_dispose app.os;
  }

  unfoldable pub my_application_new : Bytes → Os → MyApplication Os
  my_application_new application_id os = record {
    dart_entrypoint_arguments = none;
    os = G.set_prgname application_id os;
  }
