-- ===== src/Runner/Window/Life.antt =====
-- dart/example/windows/runner: what the calls that create, destroy and message the window leave of the
-- program's fields.
use ob_dump.Base.{ℕ, zero, suc, Bool, false, Option, none, some, Bytes, ◌≡◌}
use ob_dump.Runner.{
  Message, wm_nccreate, wm_destroy, other, win32_window, Program, Placement, Desktop, on_os,
}
use ob_dump.Runner.Window.Flutter.{wnd_proc}

abbrev pub wm_close : ℕ
wm_close = 16

-- The class's flag, after a window was destroyed with a number of objects left.
abbrev pub kept_class : ℕ → Bool → Bool
kept_class zero registered = false
kept_class (suc others) registered = registered

module _ {Os : Type 0} where
  abbrev pub with_os : Os → Program Os → Program Os
  with_os os p = record p { os = os }

  -- The window and its controller are gone.
  abbrev pub shut : Os → Program Os → Program Os
  shut os p = record p {
    window_handle = none;
    flutter_controller = none;
    class_registered = kept_class p.active_window_count p.class_registered;
    os = os;
  }

  -- What a message leaves: all fields, or those of a program whose window is gone.
  pub data Left (p q : Program Os) : Type 0 where
    untouched : (os : Os) → q ≡ with_os os p → Left p q
    shut_down : (os : Os) → q ≡ shut os p → Left p q

  -- An object of class Win32Window has no controller: FlutterWindow's destructor freed it.
  abbrev pub IsBare : Program Os → Type 0
  IsBare p = p.class ≡ win32_window → p.flutter_controller ≡ none

-- What DefWindowProc does: WM_CLOSE destroys a window, and the others leave the program alone.
pub data Defaulted {Os : Type 0} (D : Desktop Os) (m : Message) (p q : Program Os) : Type 0 where
  ignored : (os : Os) → q ≡ with_os os p → Defaulted D m p q
  closed :
      (hwnd wparam lparam : ℕ) (before after : Os)
      → m ≡ other wm_close wparam lparam
      → q ≡ with_os after (D.destroy_window hwnd (with_os before p))
      → Defaulted D m p q

-- What CreateWindow does: it sends WM_NCCREATE to the window procedure, unless it fails before, and
-- it may destroy the window that it does not return.
pub data Created {Os : Type 0} (D : Desktop Os) (p : Program Os) (result : Option ℕ × Program Os)
    : Type 0 where
  rejected : (os : Os) → result ≡ (none, with_os os p) → Created D p result
  abandoned :
      (hwnd r : ℕ) (before after : Os) (q : Program Os)
      → wnd_proc D hwnd wm_nccreate (with_os before p) ≡ some (r, q)
      → result ≡ (none, with_os after q)
      → Created D p result
  discarded :
      (hwnd r : ℕ) (before between after : Os) (q : Program Os)
      → wnd_proc D hwnd wm_nccreate (with_os before p) ≡ some (r, q)
      → result ≡ (none, with_os after (D.destroy_window hwnd (with_os between q)))
      → Created D p result
  made :
      (hwnd r : ℕ) (before after : Os) (q : Program Os)
      → wnd_proc D hwnd wm_nccreate (with_os before p) ≡ some (r, q)
      → result ≡ (some hwnd, with_os after q)
      → Created D p result

-- What Win32 documents of the three calls that run the window procedure with a message that changes
-- the program's fields: DestroyWindow sends WM_DESTROY.
pub record Win32Laws {Os : Type 0} (D : Desktop Os) : Type 0 where
  pub before_destroy : ℕ → Os → Os
  pub after_destroy : ℕ → Os → Os
  pub destroy_window-sends :
      (hwnd r : ℕ) (p q : Program Os)
      → wnd_proc D hwnd wm_destroy (on_os (before_destroy hwnd) p) ≡ some (r, q)
      → D.destroy_window hwnd p ≡ on_os (after_destroy hwnd) q
  pub create_window-Created :
      (title : Bytes) (place : Placement) (p : Program Os)
      → Created D p (D.create_window title place p)
  pub def_window_proc-Defaulted :
      (window : Option ℕ) (m : Message) (p : Program Os)
      → Defaulted D m p (D.def_window_proc window m p).1
