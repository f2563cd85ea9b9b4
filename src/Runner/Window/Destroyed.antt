-- ===== src/Runner/Window/Destroyed.antt =====
-- dart/example/windows/runner/win32_window.cpp: what Destroy and the messages leave of the program.
use ob_dump.Base.{ℕ, zero, suc, Bool, true, false, Option, none, some, ◌≡◌, refl, ap, ◌∙◌}
use ob_dump.Runner.{wm_destroy, Class, flutter_window, win32_window, Program, Desktop}
use ob_dump.Runner.Window.{
  free_controller, free_controller_of, on_destroy, on_destroy_of, destroy_handle,
  unregister_if_last, unregister_window_class, destroy, post_quit_if, message_handler,
}
use ob_dump.Runner.Window.Life.{kept_class, with_os, shut, IsBare}

module _ {Os : Type 0} where
  -- A program that has lost its controller.
  abbrev pub uncontrolled : Os → Program Os → Program Os
  uncontrolled os p = record p { flutter_controller = none; os = os }

  bare-uncontrolled : (p : Program Os) → p.flutter_controller ≡ none → p ≡ uncontrolled p.os p
  bare-uncontrolled p h = ap (λ controller. record p { flutter_controller = controller }) h

module _ {Os : Type 0} (D : Desktop Os) where
  free_controller-uncontrolled :
      (c : Option ℕ) (p : Program Os)
      → p.flutter_controller ≡ c
      → (os : Os) × (free_controller D c p ≡ uncontrolled os p)
  unfolding free_controller
  free_controller-uncontrolled none p h = (p.os, bare-uncontrolled p h)
  free_controller-uncontrolled (some c) p h = (D.free_controller c p.os, refl)

  pub free_controller_of-uncontrolled :
      (p : Program Os) → (os : Os) × (free_controller_of D p ≡ uncontrolled os p)
  unfolding free_controller_of
  free_controller_of-uncontrolled p = free_controller-uncontrolled p.flutter_controller p refl

  on_destroy_of-uncontrolled :
      (c : Class) (p : Program Os)
      → (c ≡ win32_window → p.flutter_controller ≡ none)
      → (os : Os) × (on_destroy_of D c p ≡ uncontrolled os p)
  unfolding on_destroy_of
  on_destroy_of-uncontrolled flutter_window p bare = free_controller_of-uncontrolled p
  on_destroy_of-uncontrolled win32_window p bare = (p.os, bare-uncontrolled p (bare refl))

  unregister_if_last-kept :
      (n : ℕ) (p : Program Os)
      → (os : Os) × (unregister_if_last D n p
          ≡ record p { class_registered = kept_class n p.class_registered; os = os })
  unfolding unregister_if_last unregister_window_class
  unregister_if_last-kept zero p = (D.unregister_class p.os, refl)
  unregister_if_last-kept (suc n) p = (p.os, refl)

  -- A window is gone, and its class with the last object.
  abbrev pub Hidden : Program Os → Program Os → Type 0
  Hidden q r =
      (os : Os) × (b : Bool) × (kept_class q.active_window_count b
        ≡ kept_class q.active_window_count q.class_registered)
      × (r ≡ record q { window_handle = none; class_registered = b; os = os })

  unregister-Hidden :
      (p q r : Program Os) (os : Os)
      → q ≡ uncontrolled os p
      → Hidden q r
      → (os' : Os) × (unregister_if_last D r.active_window_count r ≡ shut os' p)
  unregister-Hidden p q r os e (os1, b, k, h) =
      let hidden = record q { window_handle = none; class_registered = b; os = os1 } in
      let (os', kept) = unregister_if_last-kept q.active_window_count hidden in
      (
        os',
        ap (λ (x : Program Os). unregister_if_last D x.active_window_count x) h
            ∙ kept
            ∙ ap (λ b. record q { window_handle = none; class_registered = b; os = os' }) k
            ∙ ap
                (λ (x : Program Os). record x {
                  window_handle = none;
                  class_registered = kept_class x.active_window_count x.class_registered;
                  os = os';
                })
                e,
      )

  destroy-Hidden :
      (p q : Program Os) (os : Os)
      → on_destroy D p ≡ q
      → q ≡ uncontrolled os p
      → Hidden q (destroy_handle D q.window_handle q)
      → (os' : Os) × (destroy D p ≡ shut os' p)
  unfolding destroy
  destroy-Hidden p q os e f h =
      let (os', g) = unregister-Hidden p q (destroy_handle D q.window_handle q) os f h in
      (
        os',
        ap
              (λ (x : Program Os).
                let r = destroy_handle D x.window_handle x in
                unregister_if_last D r.active_window_count r)
              e
            ∙ g,
      )

  -- Destroy, from what it does with the handle once the controller is gone.
  pub destroy_handled :
      (p : Program Os)
      → IsBare p
      → ((os : Os)
          → Hidden (uncontrolled os p) (destroy_handle D p.window_handle (uncontrolled os p)))
      → (os' : Os) × (destroy D p ≡ shut os' p)
  unfolding on_destroy
  destroy_handled p bare handled =
      let (os, e) = on_destroy_of-uncontrolled p.class p bare in
      destroy-Hidden p (uncontrolled os p) os e refl (handled os)

  pub destroy_handle-Hidden :
      (w : Option ℕ) (q : Program Os)
      → w ≡ none
      → q.window_handle ≡ none
      → Hidden q (destroy_handle D w q)
  unfolding destroy_handle
  destroy_handle-Hidden none q h k =
      (q.os, q.class_registered, refl, ap (λ w. record q { window_handle = w }) k)
  destroy_handle-Hidden (some w) q h k = cc

  -- Destroy of a program with no window: the branch that WM_DESTROY takes.
  destroy-closed :
      (p : Program Os) → IsBare p → p.window_handle ≡ none → (os : Os) × (destroy D p ≡ shut os p)
  destroy-closed p bare h =
      destroy_handled p bare λ os. destroy_handle-Hidden p.window_handle (uncontrolled os p) h h

  post_quit_if-os : (b : Bool) (p : Program Os) → (os : Os) × (post_quit_if D b p ≡ with_os os p)
  unfolding post_quit_if
  post_quit_if-os true p = (D.post_quit_message p.os, refl)
  post_quit_if-os false p = (p.os, refl)

  -- Win32Window's handling of WM_DESTROY.
  pub message_handler-destroy :
      (hwnd : ℕ) (p : Program Os)
      → IsBare p
      → (os : Os) × ((message_handler D hwnd wm_destroy p).1 ≡ shut os p)
  unfolding message_handler
  message_handler-destroy hwnd p bare =
      let headless = record p { window_handle = none } in
      let (os, e) = destroy-closed headless bare refl in
      let (os', e') = post_quit_if-os (destroy D headless).quit_on_close (destroy D headless) in
      (os', e' ∙ ap (with_os os') e)
