-- ===== src/Runner/Closing.antt =====
-- dart/example/windows/runner: the message loop of main.cpp once the user closes the window.
use ob_dump.Base.{ℕ, suc, List, true, Option, none, some, Bytes, ◌≡◌, refl, ap, ◌∙◌}
use ob_dump.Runner.{Message, wm_destroy, other, flutter_window, Program, Desktop}
use ob_dump.Runner.Window.{
  message_handler, destroy, on_destroy, free_controller_of, free_controller, destroy_handle,
  unregister_if_last, post_quit_if, on_destroy_of,
}
use ob_dump.Runner.Window.Flutter.{
  wnd_proc, procedure_of, handle_message, flutter_message_handler, offer_controller,
  after_controller, switch_message,
}
use ob_dump.Runner.Window.Life.{with_os, Win32Laws, wm_close}
use ob_dump.Runner.Main.{Session, exited, dispatch_message, dispatch_to, message_loop}

-- The program in the loop, with its window and its controller.
abbrev pub showing : {Os : Type 0} → ℕ → ℕ → Option ℕ → List Bytes → Os → Program Os
showing hwnd controller child project os = record {
  class = flutter_window;
  window_handle = some hwnd;
  child_content = child;
  quit_on_close = true;
  project = project;
  flutter_controller = some controller;
  active_window_count = 1;
  class_registered = true;
  os = os;
}

-- What Win32 documents of a window that is closed while no other message is posted. `IsOpen` says
-- that the window exists with its class and its pointer, and that no message waits, and
-- `IsQuitting` that only a quit waits.
pub record ClosingLaws {Os : Type 0} (D : Desktop Os) (S : Session Os) (W : Win32Laws D)
    : Type 1 where
  pub IsOpen : ℕ → Os → Type 0
  pub IsQuitting : Os → Type 0
  pub open_class : (hwnd : ℕ) (os : Os) → IsOpen hwnd os → S.has_runner_class hwnd os ≡ true
  pub open_data : (hwnd : ℕ) (os : Os) → IsOpen hwnd os → D.has_user_data hwnd os ≡ true
  pub open_translate :
      (hwnd : ℕ) (m : Message) (os : Os)
      → IsOpen hwnd os
      → IsOpen hwnd (S.translate_message hwnd m os)
  pub open_before : (hwnd : ℕ) (os : Os) → IsOpen hwnd os → IsOpen hwnd (W.before_destroy hwnd os)
  pub open_freed :
      (controller hwnd : ℕ) (os : Os)
      → IsOpen hwnd os
      → IsOpen hwnd (D.free_controller controller os)
  pub quit_posted : (hwnd : ℕ) (os : Os) → IsOpen hwnd os → IsQuitting (D.post_quit_message os)
  pub quit_after : (hwnd : ℕ) (os : Os) → IsQuitting os → IsQuitting (W.after_destroy hwnd os)
  pub quit_got : (os : Os) → IsQuitting os → (os' : Os) × (S.get_message os ≡ (none, os'))
  pub close_destroys :
      (hwnd wparam lparam : ℕ) (p : Program Os)
      → D.def_window_proc (some hwnd) (other wm_close wparam lparam) p
        ≡ (0, D.destroy_window hwnd p)

-- A condition of the run, which the engine need not meet: its controller and the plugins hand the
-- messages of a close on to the program. An engine that first asks the framework whether to exit
-- answers WM_CLOSE itself.
pub record HandsOn {Os : Type 0} (D : Desktop Os) (IsOpen : ℕ → Os → Type 0) : Type 0 where
  pub close_passed :
      (controller hwnd wparam lparam : ℕ) (os : Os)
      → IsOpen hwnd os
      → (os' : Os) × (D.handle_top_level_window_proc controller hwnd
            (other wm_close wparam lparam)
            os
          ≡ (none, os'))
        × IsOpen hwnd os'
  pub destroy_passed :
      (controller hwnd : ℕ) (os : Os)
      → IsOpen hwnd os
      → (os' : Os) × (D.handle_top_level_window_proc controller hwnd wm_destroy os ≡ (none, os'))
        × IsOpen hwnd os'

module _ {Os : Type 0} (D : Desktop Os) (S : Session Os) (W : Win32Laws D) (C : ClosingLaws D S W)
    (E : HandsOn D C.IsOpen) where
  message_loop-got :
      (fuel hwnd : ℕ) (m : Message) (p q : Program Os) (os : Os)
      → S.get_message p.os ≡ (some (hwnd, m), os)
      → dispatch_message D S hwnd m (with_os (S.translate_message hwnd m os) p) ≡ some q
      → message_loop D S (suc fuel) p ≡ message_loop D S fuel q
  unfolding message_loop
  message_loop-got fuel hwnd m p q os e f =
      rw (message_loop, ap (λ x. x.0) e) (rw (ap (λ x. x.1) e) (rw f refl))

  message_loop-quit :
      (fuel : ℕ) (p : Program Os) (os : Os)
      → S.get_message p.os ≡ (none, os)
      → message_loop D S (suc fuel) p ≡ exited (with_os os p)
  unfolding message_loop
  message_loop-quit fuel p os e =
      rw (message_loop, ap (λ x. x.0) e) (ap (λ x. exited (with_os x.1 p)) e)

  -- The window procedure of a known window whose controller passes the message on.
  wnd_proc-destroy :
      (hwnd c : ℕ) (child : Option ℕ) (project : List Bytes) (os os' : Os)
      → D.has_user_data hwnd os ≡ true
      → D.handle_top_level_window_proc c hwnd wm_destroy os ≡ (none, os')
      → wnd_proc D hwnd wm_destroy (showing hwnd c child project os)
        ≡ some (message_handler D hwnd wm_destroy (showing hwnd c child project os'))
  unfolding wnd_proc procedure_of handle_message flutter_message_handler offer_controller
      after_controller switch_message
  wnd_proc-destroy hwnd c child project os os' e f = rw e (rw f refl)

  wnd_proc-close :
      (hwnd c w l : ℕ) (child : Option ℕ) (project : List Bytes) (os os' : Os)
      → D.has_user_data hwnd os ≡ true
      → D.handle_top_level_window_proc c hwnd (other wm_close w l) os ≡ (none, os')
      → wnd_proc D hwnd (other wm_close w l) (showing hwnd c child project os)
        ≡ some (0, D.destroy_window hwnd (showing hwnd c child project os'))
  unfolding wnd_proc procedure_of handle_message flutter_message_handler offer_controller
      after_controller switch_message message_handler
  wnd_proc-close hwnd c w l child project os os' e f =
      rw e (rw f (rw (C.close_destroys hwnd w l (showing hwnd c child project os')) refl))

  -- WM_DESTROY frees the controller and posts the quit.
  shut_showing :
      (hwnd c : ℕ) (child : Option ℕ) (project : List Bytes) (os : Os)
      → message_handler D hwnd wm_destroy (showing hwnd c child project os) ≡ (
        0,
        record (showing hwnd c child project os) {
          window_handle = none;
          flutter_controller = none;
          os = D.post_quit_message (D.free_controller c os);
        },
      )
  unfolding message_handler destroy on_destroy free_controller_of free_controller destroy_handle
      unregister_if_last post_quit_if on_destroy_of
  shut_showing hwnd c child project os = refl

  -- What DestroyWindow does to the open window.
  destroy_window-quits :
      (hwnd c : ℕ) (child : Option ℕ) (project : List Bytes) (os : Os)
      → C.IsOpen hwnd os
      → (os' : Os) × (D.destroy_window hwnd (showing hwnd c child project os)
          ≡ record (showing hwnd c child project os') {
            window_handle = none;
            flutter_controller = none;
          })
        × C.IsQuitting os'
  destroy_window-quits hwnd c child project os h =
      let sent = W.before_destroy hwnd os in
      let is_open = C.open_before hwnd os h in
      let (passed, e, still) = E.destroy_passed c hwnd sent is_open in
      let freed = D.free_controller c passed in
      let left = showing hwnd c child project (D.post_quit_message freed) in
      (
        W.after_destroy hwnd (D.post_quit_message freed),
        W.destroy_window-sends hwnd 0 (showing hwnd c child project os)
            (record left { window_handle = none; flutter_controller = none })
            (wnd_proc-destroy hwnd c child project sent passed (C.open_data hwnd sent is_open) e
              ∙ ap some (shut_showing hwnd c child project passed)),
        C.quit_after hwnd _ (C.quit_posted hwnd freed (C.open_freed c hwnd passed still)),
      )

  dispatched :
      (hwnd : ℕ) (m : Message) (p q : Program Os) (r : ℕ)
      → S.has_runner_class hwnd p.os ≡ true
      → wnd_proc D hwnd m p ≡ some (r, q)
      → dispatch_message D S hwnd m p ≡ some q
  unfolding dispatch_message dispatch_to
  dispatched hwnd m p q r e f = rw e (rw (dispatch_to, f) refl)

  -- Two rounds of the loop are enough for a close: if WM_CLOSE is the next message, no other message
  -- waits, the engine hands it on and Win32 does as documented, the loop ends, and neither the window nor the
  -- controller is left.
  pub closing-ends :
      (fuel hwnd c w l : ℕ) (child : Option ℕ) (project : List Bytes) (os os1 : Os)
      → S.get_message os ≡ (some (hwnd, other wm_close w l), os1)
      → C.IsOpen hwnd os1
      → (os' : Os) × (message_loop D S (suc (suc fuel)) (showing hwnd c child project os)
          ≡ exited (record (showing hwnd c child project os') {
            window_handle = none;
            flutter_controller = none;
          }))
  closing-ends fuel hwnd c w l child project os os1 got h =
      let m = other wm_close w l in
      let ready = S.translate_message hwnd m os1 in
      let is_open = C.open_translate hwnd m os1 h in
      let (passed, e, still) = E.close_passed c hwnd w l ready is_open in
      let (os2, gone, quitting) = destroy_window-quits hwnd c child project passed still in
      let (os3, quit) = C.quit_got os2 quitting in
      let left = record (showing hwnd c child project os2) {
        window_handle = none;
        flutter_controller = none;
      } in
      (
        os3,
        message_loop-got (suc fuel) hwnd m (showing hwnd c child project os) left os1 got (
              dispatched hwnd m (showing hwnd c child project ready) left 0
                (C.open_class hwnd ready is_open)
                (wnd_proc-close hwnd c w l child project ready passed
                    (C.open_data hwnd ready is_open) e
                  ∙ ap (λ q. some (0, q)) gone))
            ∙ message_loop-quit fuel left os3 quit,
      )
