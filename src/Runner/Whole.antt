-- ===== src/Runner/Whole.antt =====
-- dart/example/windows/runner: a whole run of wWinMain, from the window's creation to its close.
use mathlib.Core.Path.{subst}
use ob_dump.Base.{
  ℕ, suc, List, Bool, true, false, Option, none, some, Bytes, codes, ◌≡◌, refl, ap, sym, ◌∙◌,
}
use ob_dump.Runner.{other, flutter_window, Program, Point, Size, Desktop, Doubles, on_os}
use ob_dump.Runner.Window.{destroy, update_theme, set_child_content, set_quit_on_close}
use ob_dump.Runner.Window.Flutter.{
  create, construct, destruct, counted_out, opened, on_create, attach_view, start_view, placement,
}
use ob_dump.Runner.Window.Life.{
  with_os, shut, Created, rejected, abandoned, discarded, made, Win32Laws, wm_close,
}
use ob_dump.Runner.Window.Destroyed.{free_controller_of-uncontrolled, uncontrolled}
use ob_dump.Runner.Window.Kept.{destroy-shut}
use ob_dump.Runner.Window.Alive.{ready}
use ob_dump.Runner.Window.Session.{adopted, prepared}
use ob_dump.Runner.Arguments.{Conversion}
use ob_dump.Runner.Main.{
  Session, exited, exit_success, leave, run_created, open_window, w_win_main, read_arguments,
  start_console,
}
use ob_dump.Runner.Closing.{showing, ClosingLaws, HandsOn, closing-ends}

false-ne-true : ¬ (false ≡ true)
false-ne-true e = cc

module _ {Os : Type 0} where
  -- Nothing of the window is left.
  abbrev pub IsReleased : Program Os → Type 0
  IsReleased p =
      (p.window_handle ≡ none)
      × (p.flutter_controller ≡ none)
      × (p.class_registered ≡ false)
      × (p.active_window_count ≡ 0)

module _ {Os : Type 0} (D : Desktop Os) where
  -- What a successful OnCreate leaves.
  abbrev Attached : Program Os → Program Os → Type 0
  Attached p q =
      (c : ℕ) × (view : ℕ) × (os : Os) × (q
        ≡ record p { flutter_controller = some c; child_content = some view; os = os })

  attach_view-Attached :
      (engine : Bool) (view : Option ℕ) (c : ℕ) (p : Program Os) (os : Os)
      → let r = attach_view D engine view c (record p { flutter_controller = some c; os = os }) in
        r.0 ≡ true → Attached p r.1
  unfolding attach_view start_view set_child_content
  attach_view-Attached true (some view) c p os h = (c, view, _, refl)
  attach_view-Attached true none c p os h = absurd (false-ne-true h)
  attach_view-Attached false view c p os h = absurd (false-ne-true h)

  on_create-Attached : (p : Program Os) → (on_create D p).0 ≡ true → Attached p (on_create D p).1
  unfolding on_create
  on_create-Attached p h = attach_view-Attached _ _ _ p _ h

  -- A program with its window and its controller, that does not quit on close yet.
  abbrev Shown : Program Os → Program Os → Type 0
  Shown p q =
      (hwnd : ℕ) × (c : ℕ) × (view : ℕ) × (os : Os) × (q ≡ record p {
        window_handle = some hwnd;
        flutter_controller = some c;
        child_content = some view;
        class_registered = true;
        os = os;
      })

module _ {Os : Type 0} (D : Desktop Os) (W : Win32Laws D) where
  opened-Shown :
      (p : Program Os) (os : Os) (x : Option ℕ × Program Os)
      → Created D (ready D os p) x
      → (opened D x).0 ≡ true
      → Shown D p (opened D x).1
  unfolding opened
  opened-Shown p os x (rejected os' e) h =
      absurd (false-ne-true (sym (ap (λ y. (opened D y).0) e) ∙ h))
  opened-Shown p os x (abandoned hwnd r os1 os2 q k e) h =
      absurd (false-ne-true (sym (ap (λ y. (opened D y).0) e) ∙ h))
  opened-Shown p os x (discarded hwnd r os1 os2 os3 q k e) h =
      absurd (false-ne-true (sym (ap (λ y. (opened D y).0) e) ∙ h))
  opened-Shown p os x (made hwnd r os1 os2 q k e) h =
      let (os3, e3) = adopted D W hwnd r (with_os os1 (ready D os p)) q k in
      let start = on_os (update_theme D hwnd) (with_os os2 q) in
      let (c, view, os4, e4) = on_create-Attached D start (sym (ap (λ y. (opened D y).0) e) ∙ h) in
      (
        hwnd,
        c,
        view,
        os4,
        ap (λ y. (opened D y).1) e
            ∙ e4
            ∙ ap
                (λ (z : Program Os). record z {
                  flutter_controller = some c;
                  child_content = some view;
                  os = os4;
                })
                e3,
      )

  create-Shown :
      {F : Type 0} (N : Doubles F) (title : Bytes) (origin : Point) (size : Size) (p : Program Os)
      → p.class ≡ flutter_window
      → (create D N title origin size p).0 ≡ true
      → Shown D p (create D N title origin size p).1
  unfolding create
  create-Shown N title origin size p c h =
      let (os, e) = prepared D W p c in
      let run =
        λ (q : Program Os). opened D (D.create_window title (placement D N origin size q.os) q) in
      let k =
        opened-Shown p os _
          (W.create_window-Created title (placement D N origin size os) (ready D os p))
          (subst (λ q. (run q).0 ≡ true) e h) in
      subst (λ q. Shown D p (run q).1) (sym e) k

  -- The destructors of the only window object.
  destruct-shut :
      (p : Program Os)
      → p.active_window_count ≡ 1
      → (os : Os) × (os' : Os) × (destruct D p ≡ shut os' (counted_out D (uncontrolled os p)))
  unfolding destruct counted_out
  destruct-shut p n =
      let (os, e) = free_controller_of-uncontrolled D p in
      let (os', e') = destroy-shut D W (counted_out D (uncontrolled os p)) (λ k. refl) in
      (os, os', ap (λ q. destroy D (counted_out D q)) e ∙ e')

  destruct-IsReleased : (p : Program Os) → p.active_window_count ≡ 1 → IsReleased (destruct D p)
  unfolding counted_out
  destruct-IsReleased p n =
      let (os, os', e) = destruct-shut p n in
      subst IsReleased (sym e) (refl, refl, rw n refl, rw n refl)

module _ {Os : Type 0} (D : Desktop Os) (S : Session Os) (W : Win32Laws D) (C : ClosingLaws D S W)
    (E : HandsOn D C.IsOpen) where
  -- The run behind a window that was created: it quits on close from then on.
  closed_run :
      (fuel hwnd c w l view : ℕ) (project : List Bytes) (os os1 : Os)
      → S.get_message os ≡ (some (hwnd, other wm_close w l), os1)
      → C.IsOpen hwnd os1
      → (q : Program Os) × (run_created D S
            (suc (suc fuel))
            (true, record (showing hwnd c (some view) project os) { quit_on_close = false })
          ≡ exited (exit_success, q))
        × IsReleased q
  unfolding run_created leave set_quit_on_close
  closed_run fuel hwnd c w l view project os os1 got h =
      let (os', e) = closing-ends D S W C E fuel hwnd c w l (some view) project os os1 got h in
      let left = record (showing hwnd c (some view) project (S.co_uninitialize os')) {
        window_handle = none;
        flutter_controller = none;
      } in
      (destruct D left, ap (leave D S) e, destruct-IsReleased D W left refl)

  module _ {F : Type 0} (N : Doubles F) (V : Conversion) where
    open_window-Shown :
        (os : Os)
        → (open_window D S N V os).0 ≡ true
        → (project : List Bytes) × (start : Os) × Shown D
            (construct D project start)
            (open_window D S N V os).1
    unfolding open_window construct
    open_window-Shown os h =
        let (project, ready) = read_arguments D S V (S.co_initialize (start_console D S os)) in
        (
          project,
          ready,
          create-Shown D W N (codes "ob_dump_example") (record { x = 10; y = 10 })
              (record { width = 1280; height = 720 }) (construct D project ready) refl h,
        )

    same_handle : {h k : ℕ} {w : Option ℕ} → w ≡ some h → w ≡ some k → k ≡ h
    same_handle a b = cc

    -- With Win32 as documented, and if the Flutter engine hands WM_CLOSE and WM_DESTROY on to the
    -- program instead of answering them: if the window could be created, the next message is its
    -- WM_CLOSE and no other message waits, then wWinMain returns EXIT_SUCCESS after two rounds of its loop, and
    -- no window, no controller, no registered class and no window object is left.
    pub w_win_main-closes :
        (fuel hwnd w l : ℕ) (os os1 : Os)
        → (open_window D S N V os).0 ≡ true
        → (open_window D S N V os).1.window_handle ≡ some hwnd
        → S.get_message (open_window D S N V os).1.os ≡ (some (hwnd, other wm_close w l), os1)
        → C.IsOpen hwnd os1
        → (q : Program Os) × (w_win_main D S N V (suc (suc fuel)) os ≡ exited (exit_success, q))
          × IsReleased q
    unfolding w_win_main construct
    w_win_main-closes fuel hwnd w l os os1 created handle got h =
        let (project, start, (hwnd', c, view, os2, e)) = open_window-Shown os created in
        let same : hwnd' ≡ hwnd = same_handle handle (ap (λ (p : Program Os). p.window_handle) e) in
        let got2 =
          ap (λ (p : Program Os). S.get_message p.os) (sym e)
          ∙ got
          ∙ ap (λ k. (some (k, other wm_close w l), os1)) (sym same) in
        let (q, ran, released) =
          closed_run fuel hwnd' c w l view project os2 os1 got2
            (subst (λ k. C.IsOpen k os1) (sym same) h) in
        (
          q,
          ap (λ b. run_created D S (suc (suc fuel)) (b, (open_window D S N V os).1)) created
              ∙ ap (λ p. run_created D S (suc (suc fuel)) (true, p)) e
              ∙ ran,
          released,
        )
