-- ===== src/Runner/Window/Session.antt =====
-- dart/example/windows/runner: no sequence of calls and messages breaks the window object.
use mathlib.Core.Path.{subst}
use ob_dump.Base.{ℕ, List, true, Option, some, Bytes, ◌≡◌, refl, ap, sym, ◌∙◌}
use ob_dump.Runner.{wm_nccreate, flutter_window, Program, Point, Size, Desktop, Doubles, on_os}
use ob_dump.Runner.Window.{destroy, get_window_class, update_theme}
use ob_dump.Runner.Window.Flutter.{
  wnd_proc, create, construct, destruct, counted_out, opened, adopt, placement,
}
use ob_dump.Runner.Window.Life.{
  with_os, shut, Created, rejected, abandoned, discarded, made, Win32Laws,
}
use ob_dump.Runner.Window.Destroyed.{free_controller_of-uncontrolled, uncontrolled}
use ob_dump.Runner.Window.Handled.{destroy_window-Left}
use ob_dump.Runner.Window.Kept.{Leaves, destroy-shut, wnd_proc-Leaves}
use ob_dump.Runner.Window.Alive.{
  Alive, Alive-shut, Alive-Left, bare, live, Step, creates, gets, quits, destroys, destructs,
  elsewhere, Reach, here, next, construct-Alive, quit-Alive, Alive-os, on_create-Alive,
  get_window_class-registered, ignored_create, counted_out-Alive, ready,
}

module _ {Os : Type 0} (D : Desktop Os) (W : Win32Laws D) where
  -- What WM_NCCREATE leaves.
  pub adopted :
      (hwnd r : ℕ) (p q : Program Os)
      → wnd_proc D hwnd wm_nccreate p ≡ some (r, q)
      → (os : Os) × (q ≡ record p { window_handle = some hwnd; os = os })
  unfolding wnd_proc adopt
  adopted hwnd r p q h =
      let start = adopt D hwnd p in
      let x = D.def_window_proc (some hwnd) wm_nccreate start in
      let k : x ≡ (r, q) = cc in
      let (os, e) =
        ignored_create D start x.1 (W.def_window_proc-Defaulted (some hwnd) wm_nccreate start) in
      (os, sym (ap (λ y. y.1) k) ∙ e)

  pub prepared :
      (p : Program Os)
      → p.class ≡ flutter_window
      → (os : Os) × (get_window_class D (destroy D p) ≡ ready D os p)
  prepared p c =
      let (os, e) = destroy-shut D W p (bare p c) in
      let (os', e') = get_window_class-registered D (shut os p) in
      (os', ap (get_window_class D) e ∙ e')

  -- A program that has been prepared, with the handle that the system has given it.
  adopted-Alive :
      (hwnd r : ℕ) (before after os : Os) (p q : Program Os)
      → p.class ≡ flutter_window
      → p.active_window_count ≡ 1
      → wnd_proc D hwnd wm_nccreate (with_os before (ready D os p)) ≡ some (r, q)
      → Alive (with_os after q)
        × (q.window_handle ≡ some hwnd)
        × (q.class ≡ flutter_window)
        × (q.active_window_count ≡ 1)
        × (q.class_registered ≡ true)
  adopted-Alive hwnd r before after os p q c n h =
      let (os', e) = adopted hwnd r (with_os before (ready D os p)) q h in
      (
        subst (λ (x : Program Os). Alive (with_os after x)) (sym e) (live _ c n refl (λ k. refl)),
        ap (λ (x : Program Os). x.window_handle) e,
        ap (λ (x : Program Os). x.class) e ∙ c,
        ap (λ (x : Program Os). x.active_window_count) e ∙ n,
        ap (λ (x : Program Os). x.class_registered) e,
      )

  opened-Alive :
      (p : Program Os) (os : Os) (x : Option ℕ × Program Os)
      → p.class ≡ flutter_window
      → p.active_window_count ≡ 1
      → Created D (ready D os p) x
      → Alive (opened D x).1
  unfolding opened
  opened-Alive p os x c n (rejected os' e) =
      subst (λ y. Alive (opened D y).1) (sym e) (live _ c n refl (λ k. refl))
  opened-Alive p os x c n (abandoned hwnd r os1 os2 q h e) =
      subst (λ y. Alive (opened D y).1) (sym e) (adopted-Alive hwnd r os1 os2 os p q c n h).0
  opened-Alive p os x c n (discarded hwnd r os1 os2 os3 q h e) =
      let (alive, w, c', n', r') = adopted-Alive hwnd r os1 os2 os p q c n h in
      let gone = destroy_window-Left D W hwnd (with_os os2 q) (bare q c') in
      subst (λ y. Alive (opened D y).1) (sym e)
        (Alive-os D os3 _ (Alive-Left (with_os os2 q) _ alive gone))
  opened-Alive p os x c n (made hwnd r os1 os2 q h e) =
      let (alive, w, c', n', r') = adopted-Alive hwnd r os1 os2 os p q c n h in
      subst (λ y. Alive (opened D y).1) (sym e)
        (on_create-Alive D (on_os (update_theme D hwnd) (with_os os2 q)) hwnd c' n' r' w)

  create-Alive :
      {F : Type 0} (N : Doubles F) (title : Bytes) (origin : Point) (size : Size) (p : Program Os)
      → p.class ≡ flutter_window
      → Alive p
      → Alive (create D N title origin size p).1
  unfolding create
  create-Alive N title origin size p c a =
      let (os, e) = prepared p c in
      subst (λ q. Alive (opened D (D.create_window title (placement D N origin size q.os) q)).1)
        (sym e)
        (opened-Alive p os _ c (a.counted c) (W.create_window-Created title _ (ready D os p)))

  destruct-Alive : (p : Program Os) → p.class ≡ flutter_window → Alive p → Alive (destruct D p)
  unfolding destruct counted_out
  destruct-Alive p c a =
      let (os, e) = free_controller_of-uncontrolled D p in
      let out = counted_out D (uncontrolled os p) in
      let (os', e') = destroy-shut D W out (λ k. refl) in
      subst Alive (sym (ap (λ q. destroy D (counted_out D q)) e ∙ e'))
        (counted_out-Alive D p os os' (a.counted c))

  gets-Alive :
      (p q : Program Os) (r : ℕ) (x : Option (ℕ × Program Os))
      → Alive p
      → Leaves p x
      → x ≡ some (r, q)
      → Alive q
  gets-Alive p q r x a h e = Alive-Left p q a (subst (Leaves p) e h)

  Step-Alive : {p q : Program Os} → Step D p q → Alive p → Alive q
  Step-Alive (creates N title origin size p c) a = create-Alive N title origin size p c a
  Step-Alive (gets hwnd m r p q c h e) a =
      gets-Alive p q r _ a (wnd_proc-Leaves D W hwnd m p (bare p c) h) e
  Step-Alive (quits quit p) a = quit-Alive D quit p a
  Step-Alive (destroys p c) a =
      let (os, e) = destroy-shut D W p (bare p c) in subst Alive (sym e) (Alive-shut p os a)
  Step-Alive (destructs p c) a = destruct-Alive p c a
  Step-Alive (elsewhere os p) a = Alive-os D os p a

  Reach-Alive : {s p : Program Os} → Alive s → Reach D s p → Alive p
  Reach-Alive a here = a
  Reach-Alive a (next r s) = Step-Alive s (Reach-Alive a r)

  -- With Win32 as documented, after any sequence of Create, Destroy, SetQuitOnClose, messages in
  -- any order and the destructors, from the constructed object on: the class is registered while
  -- there is a window, there is a controller only while there is a window, and after the
  -- destructors no window, no controller and no registered class is left.
  pub session-Alive :
      (project : List Bytes) (os : Os) (p : Program Os)
      → Reach D (construct D project os) p
      → Alive p
  session-Alive project os p r = Reach-Alive (construct-Alive D project os) r
