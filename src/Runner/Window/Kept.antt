-- ===== src/Runner/Window/Kept.antt =====
-- dart/example/windows/runner: Destroy, and what every message leaves of the program.
use ob_dump.Base.{ℕ, zero, suc, Bool, true, false, Option, none, some, ◌≡◌, ◌≢◌, refl, ap}
use ob_dump.Runner.{
  Message, wm_nccreate, wm_destroy, wm_size, wm_activate, wm_fontchange,
  wm_dwmcolorizationcolorchanged, wm_dpichanged, other, Class, flutter_window, win32_window,
  Program, Desktop, on_os,
}
use ob_dump.Runner.Window.{message_handler, on_child, destroy_handle, destroy}
use ob_dump.Runner.Window.Flutter.{
  wnd_proc, procedure_of, handle_message, flutter_message_handler, offer_controller,
  after_controller, switch_message, reload_fonts,
}
use ob_dump.Runner.Window.Life.{
  kept_class, with_os, shut, Left, untouched, shut_down, IsBare, Defaulted, ignored, closed,
  Win32Laws,
}
use ob_dump.Runner.Window.Destroyed.{uncontrolled, Hidden, destroy_handled, destroy_handle-Hidden}
use ob_dump.Runner.Window.Handled.{Left-os, destroyed-Left, destroy_window-Left}

kept_class_idem : (n : ℕ) (b : Bool) → kept_class n (kept_class n b) ≡ kept_class n b
kept_class_idem zero b = refl
kept_class_idem (suc n) b = refl

module _ {Os : Type 0} where
  abbrev pub Leaves : Program Os → Option (ℕ × Program Os) → Type 0
  Leaves p none = Unit
  Leaves p (some (result, q)) = Left p q

module _ {Os : Type 0} (D : Desktop Os) (W : Win32Laws D) where
  Left-Hidden :
      (os : Os) (p r : Program Os)
      → Left (uncontrolled os p) r
      → Hidden D (uncontrolled os p) (record r { window_handle = none })
  Left-Hidden os p r (untouched os' e) =
      (os', p.class_registered, refl, ap (λ (x : Program Os). record x { window_handle = none }) e)
  Left-Hidden os p r (shut_down os' e) = (
    os',
    kept_class p.active_window_count p.class_registered,
    kept_class_idem p.active_window_count p.class_registered,
    ap (λ (x : Program Os). record x { window_handle = none }) e,
  )

  handle-Hidden :
      (w : Option ℕ) (os : Os) (p : Program Os)
      → p.window_handle ≡ w
      → Hidden D (uncontrolled os p) (destroy_handle D w (uncontrolled os p))
  unfolding destroy_handle
  handle-Hidden none os p h = destroy_handle-Hidden D none (uncontrolled os p) refl h
  handle-Hidden (some hwnd) os p h =
      Left-Hidden os p (D.destroy_window hwnd (uncontrolled os p))
        (destroy_window-Left D W hwnd (uncontrolled os p) (λ c. refl))

  -- Destroy leaves no window and no controller, and the class only if another window object exists.
  pub destroy-shut : (p : Program Os) → IsBare p → (os : Os) × (destroy D p ≡ shut os p)
  destroy-shut p bare = destroy_handled D p bare λ os. handle-Hidden p.window_handle os p refl

  defaulted : (m : Message) (p q : Program Os) → IsBare p → Defaulted D m p q → Left p q
  defaulted m p q bare (ignored os e) = untouched os e
  defaulted m p q bare (closed h w l os os' e f) =
      Left-os os p (D.destroy_window h (with_os os p)) q
        (destroy_window-Left D W h (with_os os p) bare) os' f

  def_window_proc-Left :
      (w : Option ℕ) (m : Message) (p : Program Os) → IsBare p → Left p (D.def_window_proc w m p).1
  def_window_proc-Left w m p bare = defaulted m p _ bare (W.def_window_proc-Defaulted w m p)

  on_child-Left : (c : Option ℕ) (f : ℕ → Os → Os) (p : Program Os) → Left p (on_child D c f p)
  unfolding on_child
  on_child-Left none f p = untouched p.os refl
  on_child-Left (some c) f p = untouched (f c p.os) refl

  message_handler-Left :
      (hwnd : ℕ) (m : Message) (p : Program Os) → IsBare p → Left p (message_handler D hwnd m p).1
  unfolding message_handler
  message_handler-Left hwnd wm_destroy p bare = destroyed-Left D W hwnd p bare
  message_handler-Left hwnd (wm_dpichanged rect) p bare = untouched _ refl
  message_handler-Left hwnd wm_size p bare = on_child-Left p.child_content _ p
  message_handler-Left hwnd wm_activate p bare = on_child-Left p.child_content _ p
  message_handler-Left hwnd wm_dwmcolorizationcolorchanged p bare = untouched _ refl
  message_handler-Left hwnd wm_nccreate p bare =
      def_window_proc-Left p.window_handle wm_nccreate p bare
  message_handler-Left hwnd wm_fontchange p bare =
      def_window_proc-Left p.window_handle wm_fontchange p bare
  message_handler-Left hwnd (other m w l) p bare =
      def_window_proc-Left p.window_handle (other m w l) p bare

  reload_fonts-Leaves :
      (c : Option ℕ) (hwnd : ℕ) (p : Program Os) → IsBare p → Leaves p (reload_fonts D hwnd c p)
  unfolding reload_fonts
  reload_fonts-Leaves none hwnd p bare = tt
  reload_fonts-Leaves (some c) hwnd p bare =
      let q = on_os (D.reload_system_fonts c) p in
      let r = message_handler D hwnd wm_fontchange q in
      Left-os q.os p r.1 r.1 (message_handler-Left hwnd wm_fontchange q bare) r.1.os refl

  switch_message-Leaves :
      (hwnd : ℕ) (m : Message) (p : Program Os) → IsBare p → Leaves p (switch_message D hwnd m p)
  unfolding switch_message
  switch_message-Leaves hwnd wm_fontchange p bare =
      reload_fonts-Leaves p.flutter_controller hwnd p bare
  switch_message-Leaves hwnd wm_destroy p bare = message_handler-Left hwnd wm_destroy p bare
  switch_message-Leaves hwnd wm_nccreate p bare = message_handler-Left hwnd wm_nccreate p bare
  switch_message-Leaves hwnd wm_size p bare = message_handler-Left hwnd wm_size p bare
  switch_message-Leaves hwnd wm_activate p bare = message_handler-Left hwnd wm_activate p bare
  switch_message-Leaves hwnd wm_dwmcolorizationcolorchanged p bare =
      message_handler-Left hwnd wm_dwmcolorizationcolorchanged p bare
  switch_message-Leaves hwnd (wm_dpichanged rect) p bare =
      message_handler-Left hwnd (wm_dpichanged rect) p bare
  switch_message-Leaves hwnd (other m w l) p bare = message_handler-Left hwnd (other m w l) p bare

  Leaves-os :
      (os : Os) (p : Program Os) (x : Option (ℕ × Program Os))
      → Leaves (with_os os p) x
      → Leaves p x
  Leaves-os os p none h = tt
  Leaves-os os p (some (r, q)) h = Left-os os p q q h q.os refl

  after_controller-Leaves :
      (result : Option ℕ) (hwnd : ℕ) (m : Message) (os : Os) (p : Program Os)
      → IsBare p
      → Leaves p (after_controller D result hwnd m (with_os os p))
  unfolding after_controller
  after_controller-Leaves (some result) hwnd m os p bare = untouched os refl
  after_controller-Leaves none hwnd m os p bare =
      Leaves-os os p _ (switch_message-Leaves hwnd m (with_os os p) bare)

  offer_controller-Leaves :
      (c : Option ℕ) (hwnd : ℕ) (m : Message) (p : Program Os)
      → IsBare p
      → Leaves p (offer_controller D c hwnd m p)
  unfolding offer_controller
  offer_controller-Leaves none hwnd m p bare = switch_message-Leaves hwnd m p bare
  offer_controller-Leaves (some c) hwnd m p bare =
      let (result, os) = D.handle_top_level_window_proc c hwnd m p.os in
      after_controller-Leaves result hwnd m os p bare

  handle_message-Leaves :
      (c : Class) (hwnd : ℕ) (m : Message) (p : Program Os)
      → IsBare p
      → Leaves p (handle_message D c hwnd m p)
  unfolding handle_message flutter_message_handler
  handle_message-Leaves flutter_window hwnd m p bare =
      offer_controller-Leaves p.flutter_controller hwnd m p bare
  handle_message-Leaves win32_window hwnd m p bare = message_handler-Left hwnd m p bare

  procedure_of-Leaves :
      (known : Bool) (hwnd : ℕ) (m : Message) (p : Program Os)
      → IsBare p
      → Leaves p (procedure_of D known hwnd m p)
  unfolding procedure_of
  procedure_of-Leaves true hwnd m p bare = handle_message-Leaves p.class hwnd m p bare
  procedure_of-Leaves false hwnd m p bare = def_window_proc-Left (some hwnd) m p bare

  -- A message other than WM_NCCREATE.
  pub wnd_proc-Leaves :
      (hwnd : ℕ) (m : Message) (p : Program Os)
      → IsBare p
      → m ≢ wm_nccreate
      → Leaves p (wnd_proc D hwnd m p)
  unfolding wnd_proc
  wnd_proc-Leaves hwnd wm_nccreate p bare h = absurd (h refl)
  wnd_proc-Leaves hwnd wm_destroy p bare h = procedure_of-Leaves _ hwnd wm_destroy p bare
  wnd_proc-Leaves hwnd wm_size p bare h = procedure_of-Leaves _ hwnd wm_size p bare
  wnd_proc-Leaves hwnd wm_activate p bare h = procedure_of-Leaves _ hwnd wm_activate p bare
  wnd_proc-Leaves hwnd wm_fontchange p bare h = procedure_of-Leaves _ hwnd wm_fontchange p bare
  wnd_proc-Leaves hwnd wm_dwmcolorizationcolorchanged p bare h =
      procedure_of-Leaves _ hwnd wm_dwmcolorizationcolorchanged p bare
  wnd_proc-Leaves hwnd (wm_dpichanged rect) p bare h =
      procedure_of-Leaves _ hwnd (wm_dpichanged rect) p bare
  wnd_proc-Leaves hwnd (other m w l) p bare h = procedure_of-Leaves _ hwnd (other m w l) p bare
