-- ===== src/Examples/Desktop.antt =====
-- A small Win32, in which the laws that the runner's theorems ask for hold.
use ob_dump.Base.{
  ℕ, zero, suc, List, Bool, true, false, Option, none, some, ◌==◌, ==_iff, if◌then◌else◌, ◌≡◌, refl,
  ap, sym, ◌∙◌,
}
use ob_dump.Base.Int.{pos}
use ob_dump.Runner.{
  Rect, Message, wm_nccreate, wm_destroy, wm_size, wm_activate, wm_fontchange,
  wm_dwmcolorizationcolorchanged, wm_dpichanged, other, Class, flutter_window, win32_window,
  Program, Desktop, on_os,
}
use ob_dump.Runner.Window.{
  message_handler, destroy, on_destroy, on_destroy_of, free_controller_of, free_controller,
  destroy_handle, unregister_if_last, unregister_window_class, post_quit_if,
  enable_full_dpi_support_if_available,
}
use ob_dump.Runner.Window.Flutter.{
  wnd_proc, adopt, procedure_of, handle_message, flutter_message_handler, offer_controller,
  after_controller, switch_message,
}
use ob_dump.Runner.Window.Life.{Win32Laws, Defaulted, ignored, closed, Created, made}

-- Whether the window exists, whether a quit is posted, and the messages that wait.
pub record Toy : Type 0 where
  pub adopted : Bool
  pub quit : Bool
  pub queue : List (ℕ × Message)

abbrev pub screen : Rect
screen = record { left = pos 0; top = pos 0; right = pos 640; bottom = pos 480 }

-- Without DestroyWindow.
abbrev pub base : Desktop Toy
base = record {
  load_user32 = λ os. (true, os);
  has_non_client_scaling = λ os. false;
  enable_non_client_dpi_scaling = λ hwnd os. os;
  free_user32 = λ os. os;
  register_class = λ os. os;
  unregister_class = λ os. os;
  monitor_from_point = λ x y os. 1;
  get_dpi_for_monitor = λ monitor os. 96;
  create_window = λ title place p. (none, p);
  destroy_window = λ hwnd p. p;
  def_window_proc = λ window m p. (0, p);
  show_window = λ window os. (true, os);
  set_user_data = λ hwnd os. record os { adopted = true };
  has_user_data = λ hwnd os. os.adopted;
  set_window_pos = λ hwnd x y w h os. os;
  move_window = λ hwnd x y w h os. os;
  get_client_rect = λ window os. screen;
  set_parent = λ child parent os. os;
  set_focus = λ hwnd os. os;
  post_quit_message = λ os. record os { quit = true };
  reg_get_light_mode = λ os. some 0;
  set_dark_mode = λ hwnd dark os. os;
  make_controller = λ w h project os. (3, os);
  has_engine = λ controller os. true;
  native_view = λ controller os. some 5;
  register_plugins = λ controller os. os;
  set_next_frame_callback = λ controller os. os;
  force_redraw = λ controller os. os;
  free_controller = λ controller os. os;
  handle_top_level_window_proc = λ controller hwnd m os. (none, os);
  reload_system_fonts = λ controller os. os;
}

abbrev pub after_message : Program Toy → Option (ℕ × Program Toy) → Program Toy
after_message p none = p
after_message p (some (result, q)) = q

abbrev pub closed_window : Toy → Toy
closed_window os = record os { adopted = false }

abbrev pub toy_destroy : ℕ → Program Toy → Program Toy
toy_destroy hwnd p = on_os closed_window (after_message p (wnd_proc base hwnd wm_destroy p))

abbrev pub toy_default : Option ℕ → Message → Program Toy → ℕ × Program Toy
toy_default (some hwnd) (other m w l) p = (0, if m == 16 then toy_destroy hwnd p else p)
toy_default (some hwnd) m p = (0, p)
toy_default none m p = (0, p)

abbrev pub adopted : Program Toy → Program Toy
adopted p = record p { window_handle = some 7; os = record p.os { adopted = true } }

abbrev pub toy : Desktop Toy
toy = record base {
  create_window = λ title place p. (some 7, adopted p);
  destroy_window = toy_destroy;
  def_window_proc = toy_default;
}

same_post : (b : Bool) (p : Program Toy) → post_quit_if toy b p ≡ post_quit_if base b p
unfolding post_quit_if
same_post true p = refl
same_post false p = refl

abbrev of_shape : Class → Option ℕ → ℕ → Program Toy → Program Toy
of_shape c controller n p = record p {
  class = c;
  flutter_controller = controller;
  active_window_count = n;
}

-- Neither desktop's DestroyWindow is reached from the handling of WM_DESTROY.
same_handler :
    (c : Class) (controller : Option ℕ) (n hwnd : ℕ) (p : Program Toy)
    → message_handler toy hwnd wm_destroy (of_shape c controller n p)
      ≡ message_handler base hwnd wm_destroy (of_shape c controller n p)
unfolding message_handler destroy on_destroy on_destroy_of free_controller_of free_controller
    destroy_handle unregister_if_last unregister_window_class
same_handler flutter_window none zero hwnd p = ap (λ q. (0, q)) (same_post p.quit_on_close _)
same_handler flutter_window none (suc n) hwnd p = ap (λ q. (0, q)) (same_post p.quit_on_close _)
same_handler flutter_window (some c) zero hwnd p = ap (λ q. (0, q)) (same_post p.quit_on_close _)
same_handler flutter_window (some c) (suc n) hwnd p = ap (λ q. (0, q)) (same_post p.quit_on_close _)
same_handler win32_window controller zero hwnd p = ap (λ q. (0, q)) (same_post p.quit_on_close _)
same_handler win32_window controller (suc n) hwnd p = ap (λ q. (0, q)) (same_post p.quit_on_close _)

same_class :
    (c : Class) (controller : Option ℕ) (hwnd : ℕ) (p : Program Toy)
    → handle_message toy c hwnd wm_destroy (of_shape c controller p.active_window_count p)
      ≡ handle_message base c hwnd wm_destroy (of_shape c controller p.active_window_count p)
unfolding handle_message flutter_message_handler offer_controller after_controller switch_message
same_class flutter_window none hwnd p =
    ap some (same_handler flutter_window none p.active_window_count hwnd p)
same_class flutter_window (some c) hwnd p =
    ap some (same_handler flutter_window (some c) p.active_window_count hwnd p)
same_class win32_window controller hwnd p =
    ap some (same_handler win32_window controller p.active_window_count hwnd p)

same_procedure :
    (b : Bool) (hwnd : ℕ) (p : Program Toy)
    → procedure_of toy b hwnd wm_destroy p ≡ procedure_of base b hwnd wm_destroy p
unfolding procedure_of
same_procedure true hwnd p = same_class p.class p.flutter_controller hwnd p
same_procedure false hwnd p = refl

pub toy_sends :
    (hwnd r : ℕ) (p q : Program Toy)
    → wnd_proc toy hwnd wm_destroy p ≡ some (r, q)
    → toy_destroy hwnd p ≡ on_os closed_window q
unfolding wnd_proc
toy_sends hwnd r p q h =
    ap (λ x. on_os closed_window (after_message p x)) (sym (same_procedure p.os.adopted hwnd p) ∙ h)

toy_closes :
    (b : Bool) (hwnd m w l : ℕ) (p : Program Toy)
    → (m == 16) ≡ b
    → Defaulted toy (other m w l) p (if b then toy_destroy hwnd p else p)
toy_closes true hwnd m w l p h =
    closed hwnd w l p.os (toy_destroy hwnd p).os (ap (λ n. other n w l) ((==_iff m 16).0 h)) refl
toy_closes false hwnd m w l p h = ignored p.os refl

pub toy_defaults :
    (window : Option ℕ) (m : Message) (p : Program Toy)
    → Defaulted toy m p (toy_default window m p).1
toy_defaults (some hwnd) (other m w l) p = toy_closes (m == 16) hwnd m w l p refl
toy_defaults (some hwnd) wm_nccreate p = ignored p.os refl
toy_defaults (some hwnd) wm_destroy p = ignored p.os refl
toy_defaults (some hwnd) wm_size p = ignored p.os refl
toy_defaults (some hwnd) wm_activate p = ignored p.os refl
toy_defaults (some hwnd) wm_fontchange p = ignored p.os refl
toy_defaults (some hwnd) wm_dwmcolorizationcolorchanged p = ignored p.os refl
toy_defaults (some hwnd) (wm_dpichanged rect) p = ignored p.os refl
toy_defaults none m p = ignored p.os refl

pub toy_creates : (p : Program Toy) → Created toy p (some 7, adopted p)
unfolding wnd_proc adopt enable_full_dpi_support_if_available
toy_creates p = made 7 0 p.os (record p.os { adopted = true }) (adopted p) refl refl

abbrev pub toy_laws : Win32Laws toy
toy_laws = record {
  before_destroy = λ hwnd os. os;
  after_destroy = λ hwnd. closed_window;
  destroy_window-sends = toy_sends;
  create_window-Created = λ title place p. toy_creates p;
  def_window_proc-Defaulted = toy_defaults;
}
