-- ===== src/Runner/Window/Alive.antt =====
-- dart/example/windows/runner: the program's window object along every sequence of calls and messages.
use mathlib.Core.Path.{subst}
use ob_dump.Base.{
  ℕ, if◌then◌else◌, List, Bool, true, false, Option, none, some, Bytes, ◌≡◌, ◌≢◌, refl, ap, sym,
  ◌∙◌,
}
use ob_dump.Runner.{
  Message, wm_nccreate, flutter_window, win32_window, Program, Point, Size, Desktop, Doubles,
}
use ob_dump.Runner.Window.{destroy, get_window_class, set_quit_on_close, set_child_content}
use ob_dump.Runner.Window.Flutter.{
  wnd_proc, create, construct, destruct, counted_out, on_create, attach_view, start_view,
}
use ob_dump.Runner.Window.Life.{
  with_os, shut, Left, untouched, shut_down, IsBare, Defaulted, ignored, closed,
}
use ob_dump.Runner.Window.Destroyed.{uncontrolled}

pub classes_differ : flutter_window ≢ win32_window
classes_differ h = cc

pub some-ne-none : {A : Type 0} {a : A} {w : Option A} → w ≡ some a → w ≢ none
some-ne-none h k = cc

module _ {Os : Type 0} where
  -- While the object lives it is the one window object, a window has its class registered, and a
  -- controller has its window. After its destructors nothing is left.
  pub record Alive (p : Program Os) : Type 0 where
    pub counted : p.class ≡ flutter_window → p.active_window_count ≡ 1
    pub registered : p.window_handle ≢ none → p.class_registered ≡ true
    pub hosted : p.window_handle ≡ none → p.flutter_controller ≡ none
    pub gone :
        p.class ≡ win32_window
        → (p.active_window_count ≡ 0)
          × (p.window_handle ≡ none)
          × (p.flutter_controller ≡ none)
          × (p.class_registered ≡ false)

  pub Alive-shut : (p : Program Os) (os : Os) → Alive p → Alive (shut os p)
  Alive-shut p os a = record {
    counted = a.counted;
    registered = λ h. absurd (h refl);
    hosted = λ h. refl;
    gone = λ h. let (n, w, c, r) = a.gone h in (n, refl, refl, rw n refl);
  }

  pub Alive-Left : (p q : Program Os) → Alive p → Left p q → Alive q
  Alive-Left p q a (untouched os e) =
      subst Alive (sym e) (record {
        counted = a.counted;
        registered = a.registered;
        hosted = a.hosted;
        gone = a.gone;
      })
  Alive-Left p q a (shut_down os e) = subst Alive (sym e) (Alive-shut p os a)

  pub bare : (p : Program Os) → p.class ≡ flutter_window → IsBare p
  bare p h k = absurd (classes_differ (sym h ∙ k))

  pub live :
      (p : Program Os)
      → p.class ≡ flutter_window
      → p.active_window_count ≡ 1
      → p.class_registered ≡ true
      → (p.window_handle ≡ none → p.flutter_controller ≡ none)
      → Alive p
  live p c n r h = record {
    counted = λ _. n;
    registered = λ _. r;
    hosted = h;
    gone = λ k. absurd (classes_differ (sym c ∙ k));
  }

-- One call, or one message that the system sends. WM_NCCREATE comes from the system's CreateWindow only.
pub data Step {Os : Type 0} (D : Desktop Os) : Program Os → Program Os → Type 1 where
  creates :
      {F : Type 0} (N : Doubles F) (title : Bytes) (origin : Point) (size : Size) (p : Program Os)
      → p.class ≡ flutter_window
      → Step D p (create D N title origin size p).1
  gets :
      (hwnd : ℕ) (m : Message) (r : ℕ) (p q : Program Os)
      → p.class ≡ flutter_window
      → m ≢ wm_nccreate
      → wnd_proc D hwnd m p ≡ some (r, q)
      → Step D p q
  quits : (quit : Bool) (p : Program Os) → Step D p (set_quit_on_close D quit p)
  destroys : (p : Program Os) → p.class ≡ flutter_window → Step D p (destroy D p)
  destructs : (p : Program Os) → p.class ≡ flutter_window → Step D p (destruct D p)
  elsewhere : (os : Os) (p : Program Os) → Step D p (with_os os p)

pub data Reach {Os : Type 0} (D : Desktop Os) (s : Program Os) : Program Os → Type 1 where
  here : Reach D s s
  next : {p q : Program Os} → Reach D s p → Step D p q → Reach D s q

module _ {Os : Type 0} (D : Desktop Os) where
  pub construct-Alive : (project : List Bytes) (os : Os) → Alive (construct D project os)
  unfolding construct
  construct-Alive project os = record {
    counted = λ h. refl;
    registered = λ h. absurd (h refl);
    hosted = λ h. refl;
    gone = λ h. absurd (classes_differ h);
  }

  pub quit-Alive : (quit : Bool) (p : Program Os) → Alive p → Alive (set_quit_on_close D quit p)
  unfolding set_quit_on_close
  quit-Alive quit p a = record {
    counted = a.counted;
    registered = a.registered;
    hosted = a.hosted;
    gone = a.gone;
  }

  pub Alive-os : (os : Os) (p : Program Os) → Alive p → Alive (with_os os p)
  Alive-os os p a = Alive-Left p (with_os os p) a (untouched os refl)

  -- The two views of what OnCreate makes.
  attach_view-Alive :
      (engine : Bool) (view : Option ℕ) (controller : ℕ) (p : Program Os) (h : ℕ)
      → p.class ≡ flutter_window
      → p.active_window_count ≡ 1
      → p.class_registered ≡ true
      → p.window_handle ≡ some h
      → Alive (attach_view D engine view controller p).1
  unfolding attach_view start_view set_child_content
  attach_view-Alive true (some view) controller p h c n r w =
      live _ c n r (λ k. absurd (some-ne-none w k))
  attach_view-Alive true none controller p h c n r w = live p c n r (λ k. absurd (some-ne-none w k))
  attach_view-Alive false view controller p h c n r w =
      live p c n r (λ k. absurd (some-ne-none w k))

  pub on_create-Alive :
      (p : Program Os) (h : ℕ)
      → p.class ≡ flutter_window
      → p.active_window_count ≡ 1
      → p.class_registered ≡ true
      → p.window_handle ≡ some h
      → Alive (on_create D p).1
  unfolding on_create
  on_create-Alive p h c n r w = attach_view-Alive _ _ _ _ h c n r w

  registered_class :
      (b : Bool) (p : Program Os)
      → p.class_registered ≡ b
      → (os : Os) × ((if b
            then p
            else record p { class_registered = true; os = D.register_class p.os })
          ≡ record p { class_registered = true; os = os })
  registered_class true p h = (p.os, ap (λ b. record p { class_registered = b }) h)
  registered_class false p h = (D.register_class p.os, refl)

  pub get_window_class-registered :
      (p : Program Os)
      → (os : Os) × (get_window_class D p ≡ record p { class_registered = true; os = os })
  unfolding get_window_class
  get_window_class-registered p = registered_class p.class_registered p refl

  pub ignored_create :
      (p q : Program Os) → Defaulted D wm_nccreate p q → (os : Os) × (q ≡ with_os os p)
  ignored_create p q (ignored os e) = (os, e)
  ignored_create p q (closed h w l os os' e f) = absurd cc

  pub counted_out-Alive :
      (p : Program Os) (os os' : Os)
      → p.active_window_count ≡ 1
      → Alive (shut os' (counted_out D (uncontrolled os p)))
  unfolding counted_out
  counted_out-Alive p os os' n = record {
    counted = λ h. absurd (classes_differ (sym h));
    registered = λ h. absurd (h refl);
    hosted = λ h. refl;
    gone = λ h. (rw n refl, refl, refl, rw n refl);
  }

  -- A program that was prepared for CreateWindow.
  abbrev pub ready : Os → Program Os → Program Os
  ready os p = record p {
    window_handle = none;
    flutter_controller = none;
    class_registered = true;
    os = os;
  }
