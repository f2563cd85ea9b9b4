-- ===== src/Runner/Window/Handled.antt =====
-- dart/example/windows/runner: what the window procedure leaves of the program, message by message.
use ob_dump.Base.{ℕ, Bool, true, false, Option, none, some, ◌≡◌, ◌≢◌, refl, ap, ◌∙◌}
use ob_dump.Runner.{
  Message, wm_destroy, other, Class, flutter_window, win32_window, Program, Desktop, on_os,
}
use ob_dump.Runner.Window.{message_handler}
use ob_dump.Runner.Window.Flutter.{
  wnd_proc, procedure_of, handle_message, flutter_message_handler, offer_controller,
  after_controller, switch_message,
}
use ob_dump.Runner.Window.Life.{
  with_os, Left, untouched, shut_down, IsBare, Defaulted, ignored, closed, Win32Laws, wm_close,
}
use ob_dump.Runner.Window.Destroyed.{message_handler-destroy}

module _ {Os : Type 0} where
  -- What the system does before and after changes no field.
  pub Left-os :
      (os : Os) (p q r : Program Os)
      → Left (with_os os p) q
      → (os' : Os) → r ≡ with_os os' q
      → Left p r
  Left-os os p q r (untouched os1 e) os' h = untouched os' (h ∙ ap (with_os os') e)
  Left-os os p q r (shut_down os1 e) os' h = shut_down os' (h ∙ ap (with_os os') e)

  -- A message was handled, and what it left.
  pub record Handled (p : Program Os) (x : Option (ℕ × Program Os)) : Type 0 where
    pub result : ℕ
    pub next : Program Os
    pub was_handled : x ≡ some (result, next)
    pub next-Left : Left p next

  Handled-pair : (p : Program Os) (r : ℕ × Program Os) → Left p r.1 → Handled p (some r)
  Handled-pair p r h = record { result = r.0; next = r.1; was_handled = refl; next-Left = h }

module _ {Os : Type 0} (D : Desktop Os) (W : Win32Laws D) where
  defaulted-Left :
      (m : Message) (p q : Program Os)
      → ((w l : ℕ) → m ≢ other wm_close w l)
      → Defaulted D m p q
      → Left p q
  defaulted-Left m p q differs (ignored os e) = untouched os e
  defaulted-Left m p q differs (closed h w l os os' e f) = absurd (differs w l e)

  pub destroyed-Left :
      (hwnd : ℕ) (p : Program Os) → IsBare p → Left p (message_handler D hwnd wm_destroy p).1
  destroyed-Left hwnd p bare = let (os, e) = message_handler-destroy D hwnd p bare in shut_down os e

  after_controller-destroy :
      (result : Option ℕ) (hwnd : ℕ) (os : Os) (p : Program Os)
      → IsBare p
      → Handled p (after_controller D result hwnd wm_destroy (with_os os p))
  unfolding after_controller switch_message
  after_controller-destroy (some result) hwnd os p bare =
      Handled-pair p (result, with_os os p) (untouched os refl)
  after_controller-destroy none hwnd os p bare =
      let r = message_handler D hwnd wm_destroy (with_os os p) in
      Handled-pair p r (Left-os os p r.1 r.1 (destroyed-Left hwnd (with_os os p) bare) r.1.os refl)

  offer_controller-destroy :
      (c : Option ℕ) (hwnd : ℕ) (p : Program Os)
      → IsBare p
      → Handled p (offer_controller D c hwnd wm_destroy p)
  unfolding offer_controller switch_message
  offer_controller-destroy none hwnd p bare =
      Handled-pair p (message_handler D hwnd wm_destroy p) (destroyed-Left hwnd p bare)
  offer_controller-destroy (some c) hwnd p bare =
      let (result, os) = D.handle_top_level_window_proc c hwnd wm_destroy p.os in
      after_controller-destroy result hwnd os p bare

  handle_message-destroy :
      (c : Class) (hwnd : ℕ) (p : Program Os)
      → IsBare p
      → Handled p (handle_message D c hwnd wm_destroy p)
  unfolding handle_message flutter_message_handler
  handle_message-destroy flutter_window hwnd p bare =
      offer_controller-destroy p.flutter_controller hwnd p bare
  handle_message-destroy win32_window hwnd p bare =
      Handled-pair p (message_handler D hwnd wm_destroy p) (destroyed-Left hwnd p bare)

  procedure_of-destroy :
      (known : Bool) (hwnd : ℕ) (p : Program Os)
      → IsBare p
      → Handled p (procedure_of D known hwnd wm_destroy p)
  unfolding procedure_of
  procedure_of-destroy true hwnd p bare = handle_message-destroy p.class hwnd p bare
  procedure_of-destroy false hwnd p bare =
      Handled-pair p (D.def_window_proc (some hwnd) wm_destroy p) (
        defaulted-Left wm_destroy p _ (λ w l e. cc)
          (W.def_window_proc-Defaulted (some hwnd) wm_destroy p))

  -- DestroyWindow sends WM_DESTROY.
  pub destroy_window-Left :
      (hwnd : ℕ) (p : Program Os) → IsBare p → Left p (D.destroy_window hwnd p)
  unfolding wnd_proc
  destroy_window-Left hwnd p bare =
      let sent = on_os (W.before_destroy hwnd) p in
      let handled = procedure_of-destroy (D.has_user_data hwnd sent.os) hwnd sent bare in
      Left-os sent.os p handled.next (D.destroy_window hwnd p) handled.next-Left
        (W.after_destroy hwnd handled.next.os)
        (W.destroy_window-sends hwnd handled.result p handled.next handled.was_handled)
