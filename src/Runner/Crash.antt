-- ===== src/Runner/Crash.antt =====
-- dart/example/windows/runner/flutter_window.cpp: when the message handler follows a null pointer.
use mathlib.Core.Path.{subst}
use ob_dump.Base.{ℕ, Option, none, some, ◌≡◌, ◌↔◌, refl}
use ob_dump.Runner.{
  Message, wm_nccreate, wm_destroy, wm_size, wm_activate, wm_fontchange,
  wm_dwmcolorizationcolorchanged, wm_dpichanged, other, Program, Desktop,
}
use ob_dump.Runner.Window.Flutter.{
  flutter_message_handler, offer_controller, after_controller, switch_message, reload_fonts,
}

module _ {Os : Type 0} where
  -- The handler's result, with the message and the controller that it started with.
  abbrev Crashes : Option (ℕ × Program Os) → Message → Option ℕ → Type 0
  Crashes x m controller = (x ≡ none) ↔ ((m ≡ wm_fontchange) × (controller ≡ none))

  returns :
      {r : ℕ × Program Os} {m : Message} {c : Option ℕ}
      → ¬ ((m ≡ wm_fontchange) × (c ≡ none))
      → Crashes (some r) m c
  returns h = ((λ e. absurd cc), λ k. absurd (h k))

module _ {Os : Type 0} (D : Desktop Os) where
  reload_fonts-Crashes :
      (hwnd : ℕ) (c : Option ℕ) (p : Program Os) → Crashes (reload_fonts D hwnd c p) wm_fontchange c
  unfolding reload_fonts
  reload_fonts-Crashes hwnd none p = ((λ e. (refl, refl)), λ k. refl)
  reload_fonts-Crashes hwnd (some c) p = returns (λ k. cc)

  switch_message-Crashes :
      (hwnd : ℕ) (m : Message) (p : Program Os)
      → Crashes (switch_message D hwnd m p) m p.flutter_controller
  unfolding switch_message
  switch_message-Crashes hwnd wm_fontchange p = reload_fonts-Crashes hwnd p.flutter_controller p
  switch_message-Crashes hwnd wm_destroy p = returns (λ k. cc)
  switch_message-Crashes hwnd wm_nccreate p = returns (λ k. cc)
  switch_message-Crashes hwnd wm_size p = returns (λ k. cc)
  switch_message-Crashes hwnd wm_activate p = returns (λ k. cc)
  switch_message-Crashes hwnd wm_dwmcolorizationcolorchanged p = returns (λ k. cc)
  switch_message-Crashes hwnd (wm_dpichanged rect) p = returns (λ k. cc)
  switch_message-Crashes hwnd (other m w l) p = returns (λ k. cc)

  after_controller-Crashes :
      (result : Option ℕ) (hwnd c : ℕ) (m : Message) (p : Program Os)
      → p.flutter_controller ≡ some c
      → Crashes (after_controller D result hwnd m p) m (some c)
  unfolding after_controller
  after_controller-Crashes (some result) hwnd c m p h = returns (λ k. cc)
  after_controller-Crashes none hwnd c m p h =
      subst (Crashes (switch_message D hwnd m p) m) h (switch_message-Crashes hwnd m p)

  offer_controller-Crashes :
      (c : Option ℕ) (hwnd : ℕ) (m : Message) (p : Program Os)
      → p.flutter_controller ≡ c
      → Crashes (offer_controller D c hwnd m p) m c
  unfolding offer_controller
  offer_controller-Crashes none hwnd m p h =
      subst (Crashes (switch_message D hwnd m p) m) h (switch_message-Crashes hwnd m p)
  offer_controller-Crashes (some c) hwnd m p h =
      let (result, os) = D.handle_top_level_window_proc c hwnd m p.os in
      after_controller-Crashes result hwnd c m (record p { os = os }) h

  -- FlutterWindow's message handler returns on every message, except for a WM_FONTCHANGE that comes
  -- while the window has no controller.
  pub flutter_message_handler-crash_iff :
      (hwnd : ℕ) (m : Message) (p : Program Os)
      → (flutter_message_handler D hwnd m p ≡ none)
        ↔ ((m ≡ wm_fontchange) × (p.flutter_controller ≡ none))
  unfolding flutter_message_handler
  flutter_message_handler-crash_iff hwnd m p =
      offer_controller-Crashes p.flutter_controller hwnd m p refl
