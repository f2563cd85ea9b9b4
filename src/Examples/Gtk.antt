-- ===== src/Examples/Gtk.antt =====
-- A small GTK, in which the laws that the Linux runner's theorem asks for hold, and a run in it.
use ob_dump.Base.{
  ℕ, zero, suc, List, [], ◌∷◌, ◌++◌, length, get_elem?, Bool, true, false, Option, none, some,
  codes, eqb, ◌≡◌, refl, ap,
}
use ob_dump.Runner.Linux.{
  Gtk, MyApplication, first_frame_cb, my_application_local_command_line, my_application_activate,
  set_title, use_header_bar, set_header_bar, show_view, after_register,
}
use ob_dump.Runner.Linux.FirstFrame.{
  Makes, GtkLaws, my_application_local_command_line-first_frame_cb,
}

-- Which of the widgets are shown, the window of the one view, and whether its first frame is
-- connected.
pub record Toy : Type 0 where
  pub widgets : List Bool
  pub window : ℕ
  pub on : Bool

abbrev added : Toy → ℕ × Toy
added os = (length os.widgets, record os { widgets = os.widgets ++ false ∷ [] })

abbrev show : ℕ → List Bool → List Bool
show w [] = []
show zero (x ∷ xs) = true ∷ xs
show (suc w) (x ∷ xs) = x ∷ show w xs

abbrev small_gtk : Gtk Toy
small_gtk = record {
  application_window_new = added;
  built_for_x11 = true;
  is_x11_screen = λ window os. true;
  window_manager_name = λ window os. some (codes "GNOME Shell");
  header_bar_new = added;
  widget_show = λ w os. record os { widgets = show w os.widgets };
  get_toplevel = λ w os. os.window;
  header_bar_set_title = λ bar title os. os;
  header_bar_set_show_close_button = λ bar close os. os;
  window_set_titlebar = λ window bar os. os;
  window_set_title = λ window title os. os;
  window_set_default_size = λ window x y os. os;
  dart_project_new = λ os. (0, os);
  set_dart_entrypoint_arguments = λ project arguments os. os;
  view_new = λ project os. added os;
  set_background_color = λ view color os. os;
  container_add = λ window view os. record os { window = window };
  connect_first_frame = λ view os. record os { on = true };
  widget_realize = λ view os. os;
  register_plugins = λ view os. os;
  widget_grab_focus = λ view os. os;
  project_unref = λ project os. os;
  register = λ os. (none, os);
  activate_signal = λ os. os;
  warning = λ message os. os;
  set_prgname = λ name os. os;
  parent_startup = λ os. os;
  parent_shutdown = λ os. os;
  parent_dispose = λ os. os;
}

get_elem?-length : (xs : List Bool) → get_elem? xs (length xs) ≡ none
get_elem?-length [] = refl
get_elem?-length (x ∷ xs) = get_elem?-length xs

get_elem?-last : (xs : List Bool) → get_elem? (xs ++ false ∷ []) (length xs) ≡ some false
get_elem?-last [] = refl
get_elem?-last (x ∷ xs) = get_elem?-last xs

get_elem?-++ :
    (xs ys : List Bool) (w : ℕ) (b : Bool)
    → get_elem? xs w ≡ some b
    → get_elem? (xs ++ ys) w ≡ some b
get_elem?-++ [] ys w b e = cc
get_elem?-++ (x ∷ xs) ys zero b e = e
get_elem?-++ (x ∷ xs) ys (suc w) b e = get_elem?-++ xs ys w b e

get_elem?-show :
    (xs : List Bool) (w : ℕ) (b : Bool)
    → get_elem? xs w ≡ some b
    → get_elem? (show w xs) w ≡ some true
get_elem?-show [] w b e = cc
get_elem?-show (x ∷ xs) zero b e = refl
get_elem?-show (x ∷ xs) (suc w) b e = get_elem?-show xs w b e

get_elem?-show_other :
    (xs : List Bool) (v w : ℕ) → ¬ (v ≡ w) → get_elem? (show v xs) w ≡ get_elem? xs w
get_elem?-show_other [] v w ne = refl
get_elem?-show_other (x ∷ xs) zero zero ne = absurd (ne refl)
get_elem?-show_other (x ∷ xs) zero (suc w) ne = refl
get_elem?-show_other (x ∷ xs) (suc v) zero ne = refl
get_elem?-show_other (x ∷ xs) (suc v) (suc w) ne = get_elem?-show_other xs v w (λ e. ne (ap suc e))

abbrev seen : ℕ → Toy → Option Bool
seen w os = get_elem? os.widgets w

makes : Makes seen added
makes = record {
  fresh = λ os. get_elem?-length os.widgets;
  hidden = λ os. get_elem?-last os.widgets;
  others = λ w b os. get_elem?-++ os.widgets (false ∷ []) w b;
}

abbrev laws : GtkLaws small_gtk
laws = record {
  visible = seen;
  connected = λ view os. os.on;
  makes_window = makes;
  makes_header_bar = makes;
  makes_view = λ project. makes;
  shows = λ w b os. get_elem?-show os.widgets w b;
  shows_only = λ v w os. get_elem?-show_other os.widgets v w;
  project_quiet = λ w os. refl;
  titlebar_quiet = λ w window bar os. refl;
  bar_title_quiet = λ w bar title os. refl;
  close_button_quiet = λ w bar close os. refl;
  title_quiet = λ w window title os. refl;
  size_quiet = λ w window x y os. refl;
  arguments_quiet = λ w project arguments os. refl;
  color_quiet = λ w view color os. refl;
  add_quiet = λ w window view os. refl;
  connect_quiet = λ w view os. refl;
  realize_quiet = λ w view os. refl;
  plugins_quiet = λ w view os. refl;
  focus_quiet = λ w view os. refl;
  unref_quiet = λ w project os. refl;
  adds = λ window view os. refl;
  connects = λ view os. refl;
  connect_inside = λ v view os. refl;
  realize_inside = λ v view os. (refl, refl);
  plugins_inside = λ v view os. (refl, refl);
  focus_inside = λ v view os. (refl, refl);
  unref_inside = λ project view os. (refl, refl);
}

abbrev start : MyApplication Toy
start = record {
  dart_entrypoint_arguments = none;
  os = record { widgets = []; window = 0; on = false };
}

abbrev finished : ℕ × MyApplication Toy
finished =
    my_application_local_command_line small_gtk (codes "ob_dump_example") (codes "--x" ∷ []) start

-- The window is widget 0, its header bar 1, and the view 2.
started : finished.1.os.widgets ≡ false ∷ true ∷ true ∷ []
unfolding my_application_local_command_line after_register my_application_activate set_title
    use_header_bar set_header_bar show_view eqb
started = refl

my_application_local_command_line-first_frame_cb_example :
    (finished.0 ≡ 0)
    × (seen 0 finished.1.os ≡ some false)
    × (view : ℕ) × (finished.1.os.on ≡ true)
    × (seen 0 (first_frame_cb small_gtk view finished.1.os) ≡ some true)
my_application_local_command_line-first_frame_cb_example =
    my_application_local_command_line-first_frame_cb small_gtk laws (codes "ob_dump_example")
      (codes "--x" ∷ []) start start.os refl
