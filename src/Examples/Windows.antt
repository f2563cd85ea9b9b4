-- ===== src/Examples/Windows.antt =====
-- The theorems on the example's window, at a window that is created and closed.
use ob_dump.Base.{
  arith, length, ℕ, ◌*◌, ◌/◌, List, [], ◌∷◌, Bool, true, false, Option, none, some, codes, ◌≡◌, ◌↔◌,
  refl,
}
use ob_dump.Base.Int.{pos}
use ob_dump.Runner.{Message, wm_fontchange, other, Program, Doubles}
use ob_dump.Runner.Window.Flutter.{
  wnd_proc, create, construct, flutter_message_handler, opened, on_create, attach_view, start_view,
  replace_controller, placement, procedure_of, handle_message, offer_controller, after_controller,
  switch_message,
}
use ob_dump.Runner.Window.{
  set_child_content, get_client_area, update_theme, destroy, on_destroy, on_destroy_of,
  free_controller_of, free_controller, destroy_handle, unregister_if_last, post_quit_if,
  get_window_class, scale, message_handler,
}
use ob_dump.Runner.Window.Alive.{Alive, creates, gets, here, next}
use ob_dump.Runner.Window.Session.{session-Alive}
use ob_dump.Runner.Main.{Session, exited, exit_success, open_window, w_win_main}
use ob_dump.Runner.Closing.{ClosingLaws, HandsOn}
use ob_dump.Runner.Whole.{IsReleased, w_win_main-closes}
use ob_dump.Runner.Arguments.{
  Wide, get_command_line_arguments-utf8, Conversion, get_command_line_arguments,
}
use ob_dump.Runner.Crash.{flutter_message_handler-crash_iff}
use ob_dump.Examples.Desktop.{Toy, toy, toy_laws}

abbrev whole : Doubles ℕ
whole = record {
  of_uint = λ n. n;
  ninety_six = 96;
  divide = λ a b. a / b;
  multiply = λ a b. a * b;
  truncate = λ a. pos a;
}

abbrev os_of : Bool → Bool → List (ℕ × Message) → Toy
os_of adopted quit queue = record { adopted = adopted; quit = quit; queue = queue }

abbrev retrieve : List (ℕ × Message) → Toy → Option (ℕ × Message) × Toy
retrieve [] os = (none, os)
retrieve (m ∷ rest) os = (some m, record os { queue = rest })

abbrev session : Session Toy
session = record {
  attach_console = λ os. (true, os);
  is_debugger_present = λ os. false;
  alloc_console = λ os. (true, os);
  freopen_stdout = λ os. (false, os);
  freopen_stderr = λ os. (false, os);
  dup_stdout_to = λ n os. os;
  sync_with_stdio = λ os. os;
  resync_output_streams = λ os. os;
  co_initialize = λ os. os;
  co_uninitialize = λ os. os;
  command_line_to_argv = λ os. (none, os);
  local_free = λ os. os;
  get_message = λ os. retrieve os.queue os;
  translate_message = λ hwnd m os. os;
  has_runner_class = λ hwnd os. os.adopted;
  dispatch_elsewhere = λ hwnd m os. os;
}

quitting :
    (q : List (ℕ × Message)) (os : Toy) → q ≡ [] → (os' : Toy) × (retrieve q os ≡ (none, os'))
quitting [] os h = (os, refl)
quitting (m ∷ q) os h = cc

abbrev closing_laws : ClosingLaws toy session toy_laws
closing_laws = record {
  IsOpen = λ hwnd os. (os.adopted ≡ true) × (os.queue ≡ []);
  IsQuitting = λ os. os.queue ≡ [];
  open_class = λ hwnd os h. h.0;
  open_data = λ hwnd os h. h.0;
  open_translate = λ hwnd m os h. h;
  open_before = λ hwnd os h. h;
  open_freed = λ c hwnd os h. h;
  quit_posted = λ hwnd os h. h.1;
  quit_after = λ hwnd os h. h;
  quit_got = λ os h. quitting os.queue os h;
  close_destroys = λ hwnd w l p. refl;
}

abbrev hands_on : HandsOn toy closing_laws.IsOpen
hands_on = record {
  close_passed = λ c hwnd w l os h. (os, refl, h);
  destroy_passed = λ c hwnd os h. (os, refl, h);
}

abbrev waiting : Toy
waiting = os_of true false ((7, other 16 0 0) ∷ [])

abbrev words : Conversion
words = record {
  utf8_length = λ text. length text;
  utf8_convert = λ text n. (n, text);
  max_size = 1000;
}

w_win_main-closes_example :
    (q : Program Toy) × (w_win_main toy session whole words 2 waiting ≡ exited (exit_success, q))
    × IsReleased q
unfolding open_window
w_win_main-closes_example =
    w_win_main-closes toy session toy_laws closing_laws hands_on whole words 0 7 0 0 waiting
      (os_of true false []) refl refl refl (refl, refl)

crash_iff_example :
    (flutter_message_handler toy 7 wm_fontchange (construct toy [] waiting) ≡ none)
    ↔ ((wm_fontchange ≡ wm_fontchange) × ((construct toy [] waiting).flutter_controller ≡ none))
crash_iff_example = flutter_message_handler-crash_iff toy 7 wm_fontchange (construct toy [] waiting)

abbrev begun : Program Toy
unfolding construct
begun = construct toy [] (os_of false false [])

abbrev ended : Program Toy
ended = record begun { child_content = some 5; class_registered = true; os = os_of false false [] }

session-Alive_example : Alive ended
unfolding construct create opened on_create attach_view start_view replace_controller
    set_child_content get_client_area update_theme destroy on_destroy on_destroy_of
    free_controller_of free_controller destroy_handle unregister_if_last post_quit_if
    get_window_class placement scale wnd_proc procedure_of handle_message flutter_message_handler
    offer_controller after_controller switch_message message_handler
session-Alive_example = session-Alive toy toy_laws [] (os_of false false []) ended (
    next
      (next here (
        creates whole (codes "a") (record { x = 10; y = 10 })
          (record { width = 1280; height = 720 }) (construct toy [] (os_of false false [])) refl))
      (gets 7 (other 16 0 0) 0 _ ended refl (λ e. cc) refl))

abbrev hello : Wide
hello = codes "--a"

get_command_line_arguments-utf8_example :
    get_command_line_arguments words (some (some (codes "x.exe") ∷ some hello ∷ [])) ≡ hello ∷ []
get_command_line_arguments-utf8_example =
    get_command_line_arguments-utf8 words (record { writes = λ text. refl }) (some (codes "x.exe"))
      (hello ∷ [])
      ((((λ e. cc), ((λ e. cc), ((λ e. cc), tt))), omega arith, omega arith, omega arith), tt)
