-- ===== src/Runner/Linux/FirstFrame.antt =====
-- dart/example/linux/runner/my_application.cc: when the window is shown.
use ob_dump.Base.{
  ℕ, List, Bool, true, false, if◌then◌else◌, Option, none, some, Bytes, codes, ◌≡◌, refl, ◌∙◌,
}
use ob_dump.Runner.Linux.{
  Gtk, MyApplication, on_os, application_title, first_frame_cb, use_header_bar, set_header_bar,
  set_title, show_view, my_application_activate, after_register, my_application_local_command_line,
}

module _ {Os : Type 0} where
  -- A call that leaves what an observer sees.
  abbrev pub Keeps : {A : Type 0} → (Os → A) → (Os → Os) → Type 0
  Keeps see f = (os : Os) → see (f os) ≡ see os

  -- A call that leaves a view in its window, and its first frame connected as it was.
  abbrev pub KeepsView : Gtk Os → (ℕ → Os → Bool) → (Os → Os) → Type 0
  KeepsView G connected f =
      (view : ℕ) (os : Os)
      → (G.get_toplevel view (f os) ≡ G.get_toplevel view os)
        × (connected view (f os) ≡ connected view os)

  -- A new widget was none before, is hidden, and leaves the others as they are.
  pub record Makes (visible : ℕ → Os → Option Bool) (new : Os → ℕ × Os) : Type 0 where
    pub fresh : (os : Os) → visible (new os).0 os ≡ none
    pub hidden : (os : Os) → visible (new os).0 (new os).1 ≡ some false
    pub others :
        (w : ℕ) (b : Bool) (os : Os) → visible w os ≡ some b → visible w (new os).1 ≡ some b

-- What the function relies on: which widgets there are and which of them are shown, and for which
-- view the first frame's callback is connected. Only `gtk_widget_show` shows a widget, and only
-- that one.
pub record GtkLaws {Os : Type 0} (G : Gtk Os) : Type 0 where
  pub visible : ℕ → Os → Option Bool
  pub connected : ℕ → Os → Bool
  pub makes_window : Makes visible G.application_window_new
  pub makes_header_bar : Makes visible G.header_bar_new
  pub makes_view : (project : ℕ) → Makes visible (G.view_new project)
  pub shows :
      (w : ℕ) (b : Bool) (os : Os)
      → visible w os ≡ some b
      → visible w (G.widget_show w os) ≡ some true
  pub shows_only : (v w : ℕ) (os : Os) → ¬ (v ≡ w) → visible w (G.widget_show v os) ≡ visible w os
  pub project_quiet : (w : ℕ) → Keeps (visible w) (λ os. (G.dart_project_new os).1)
  pub titlebar_quiet : (w window bar : ℕ) → Keeps (visible w) (G.window_set_titlebar window bar)
  pub bar_title_quiet :
      (w bar : ℕ) (title : Bytes) → Keeps (visible w) (G.header_bar_set_title bar title)
  pub close_button_quiet :
      (w bar : ℕ) (on : Bool) → Keeps (visible w) (G.header_bar_set_show_close_button bar on)
  pub title_quiet :
      (w window : ℕ) (title : Bytes) → Keeps (visible w) (G.window_set_title window title)
  pub size_quiet : (w window x y : ℕ) → Keeps (visible w) (G.window_set_default_size window x y)
  pub arguments_quiet :
      (w project : ℕ) (arguments : Option (List Bytes))
      → Keeps (visible w) (G.set_dart_entrypoint_arguments project arguments)
  pub color_quiet :
      (w view : ℕ) (color : Bytes) → Keeps (visible w) (G.set_background_color view color)
  pub add_quiet : (w window view : ℕ) → Keeps (visible w) (G.container_add window view)
  pub connect_quiet : (w view : ℕ) → Keeps (visible w) (G.connect_first_frame view)
  pub realize_quiet : (w view : ℕ) → Keeps (visible w) (G.widget_realize view)
  pub plugins_quiet : (w view : ℕ) → Keeps (visible w) (G.register_plugins view)
  pub focus_quiet : (w view : ℕ) → Keeps (visible w) (G.widget_grab_focus view)
  pub unref_quiet : (w project : ℕ) → Keeps (visible w) (G.project_unref project)
  pub adds :
      (window view : ℕ) (os : Os) → G.get_toplevel view (G.container_add window view os) ≡ window
  pub connects : (view : ℕ) (os : Os) → connected view (G.connect_first_frame view os) ≡ true
  pub connect_inside : (v view : ℕ) → Keeps (G.get_toplevel v) (G.connect_first_frame view)
  pub realize_inside : (view : ℕ) → KeepsView G connected (G.widget_realize view)
  pub plugins_inside : (view : ℕ) → KeepsView G connected (G.register_plugins view)
  pub focus_inside : (view : ℕ) → KeepsView G connected (G.widget_grab_focus view)
  pub unref_inside : (project : ℕ) → KeepsView G connected (G.project_unref project)

module _ {Os : Type 0} (G : Gtk Os) (laws : GtkLaws G) where
  abbrev pub IsHidden : ℕ → Os → Type 0
  IsHidden w os = laws.visible w os ≡ some false

  -- A widget that is made after a hidden one is another.
  apart : (h w : ℕ) (os : Os) → laws.visible h os ≡ none → IsHidden w os → ¬ (h ≡ w)
  apart h w os fresh hidden same = cc

  show-IsHidden : (h w : ℕ) (os : Os) → ¬ (h ≡ w) → IsHidden w os → IsHidden w (G.widget_show h os)
  show-IsHidden h w os ne hidden = laws.shows_only h w os ne ∙ hidden

  set_header_bar-IsHidden :
      (window : ℕ) (os : Os) → IsHidden window os → IsHidden window (set_header_bar G window os)
  unfolding set_header_bar
  set_header_bar-IsHidden window os hidden =
      let (bar, made) = G.header_bar_new os in
      laws.titlebar_quiet window window bar _
      ∙ (laws.close_button_quiet window bar true _
          ∙ (laws.bar_title_quiet window bar application_title _
              ∙ show-IsHidden bar window made
                  (apart bar window os (laws.makes_header_bar.fresh os) hidden)
                  (laws.makes_header_bar.others window false os hidden)))

  titled-IsHidden :
      (bar : Bool) (window : ℕ) (os : Os)
      → IsHidden window os
      → IsHidden window (
          if bar
          then set_header_bar G window os
          else G.window_set_title window application_title os)
  titled-IsHidden true window os hidden = set_header_bar-IsHidden window os hidden
  titled-IsHidden false window os hidden =
      laws.title_quiet window window application_title os ∙ hidden

  set_title-IsHidden :
      (window : ℕ) (os : Os) → IsHidden window os → IsHidden window (set_title G window os)
  unfolding set_title
  set_title-IsHidden window os hidden =
      titled-IsHidden (use_header_bar G window os) window os hidden

  show_view-IsHidden :
      (window view : ℕ) (os : Os)
      → ¬ (view ≡ window)
      → IsHidden window os
      → IsHidden window (show_view G window view os)
  unfolding show_view
  show_view-IsHidden window view os ne hidden =
      laws.focus_quiet window view _
      ∙ (laws.plugins_quiet window view _
          ∙ (laws.realize_quiet window view _
              ∙ (laws.connect_quiet window view _
                  ∙ (laws.add_quiet window window view _
                      ∙ show-IsHidden view window _ ne
                          (laws.color_quiet window view (codes "#000000") os ∙ hidden)))))

  -- The view is in the window, and its first frame calls first_frame_cb.
  abbrev pub Waits : ℕ → ℕ → Os → Type 0
  Waits window view os = (G.get_toplevel view os ≡ window) × (laws.connected view os ≡ true)

  keep-Waits :
      (f : Os → Os) (window view : ℕ) (os : Os)
      → KeepsView G laws.connected f
      → Waits window view os
      → Waits window view (f os)
  keep-Waits f window view os keeps (top, on) = ((keeps view os).0 ∙ top, (keeps view os).1 ∙ on)

  show_view-Waits : (window view : ℕ) (os : Os) → Waits window view (show_view G window view os)
  unfolding show_view
  show_view-Waits window view os =
      keep-Waits (G.widget_grab_focus view) window view _ (laws.focus_inside view) (
        keep-Waits (G.register_plugins view) window view _ (laws.plugins_inside view) (
          keep-Waits (G.widget_realize view) window view _ (laws.realize_inside view)
            (laws.connect_inside view view _ ∙ laws.adds window view _, laws.connects view _)))

  -- The new window stays hidden, and a view waits in it.
  abbrev pub WaitsHidden : ℕ → Os → Type 0
  WaitsHidden window os = IsHidden window os × (view : ℕ) × Waits window view os

  my_application_activate-WaitsHidden :
      (app : MyApplication Os)
      → WaitsHidden (G.application_window_new app.os).0 (my_application_activate G app).os
  unfolding my_application_activate
  my_application_activate-WaitsHidden app =
      let (window, made) = G.application_window_new app.os in
      let titled : IsHidden window (set_title G window made) =
        set_title-IsHidden window made (laws.makes_window.hidden app.os) in
      let sized = G.window_set_default_size window 1280 720 (set_title G window made) in
      let (project, ready) = G.dart_project_new sized in
      let told = G.set_dart_entrypoint_arguments project app.dart_entrypoint_arguments ready in
      let (view, viewed) = G.view_new project told in
      let before : IsHidden window told =
        laws.arguments_quiet window project app.dart_entrypoint_arguments ready
        ∙ (laws.project_quiet window sized ∙ (laws.size_quiet window window 1280 720 _ ∙ titled)) in
      let views = laws.makes_view project in
      (
        laws.unref_quiet window project _
            ∙ show_view-IsHidden window view viewed
                (apart view window told (views.fresh told) before)
                (views.others window false told before),
        view,
        keep-Waits (G.project_unref project) window view _ (laws.unref_inside project)
            (show_view-Waits window view viewed),
      )

  after_register-WaitsHidden :
      (app : MyApplication Os)
      → ((after_register G none app).0 ≡ 0)
        × WaitsHidden
            (G.application_window_new (G.activate_signal app.os)).0
            (after_register G none app).1.os
  unfolding after_register
  after_register-WaitsHidden app =
      (refl, my_application_activate-WaitsHidden (on_os G G.activate_signal app))

  first_frame_cb-shows :
      (window view : ℕ) (os : Os)
      → IsHidden window os
      → Waits window view os
      → laws.visible window (first_frame_cb G view os) ≡ some true
  unfolding first_frame_cb
  first_frame_cb-shows window view os hidden (top, on) =
      rw (first_frame_cb, top) (laws.shows window false os hidden)

  -- If the application can be registered, the command line's function exits with 0 and leaves the
  -- new window hidden; a view is connected to first_frame_cb, which then shows that window.
  pub my_application_local_command_line-first_frame_cb :
      (binary_name : Bytes) (arguments : List Bytes) (app : MyApplication Os) (registered : Os)
      → G.register app.os ≡ (none, registered)
      → let (status, after) = my_application_local_command_line G binary_name arguments app in
        let window = (G.application_window_new (G.activate_signal registered)).0 in
        (status ≡ 0)
        × (laws.visible window after.os ≡ some false)
        × (view : ℕ) × (laws.connected view after.os ≡ true)
        × (laws.visible window (first_frame_cb G view after.os) ≡ some true)
  unfolding my_application_local_command_line
  my_application_local_command_line-first_frame_cb binary_name arguments app registered ok =
      let (exits, (hidden, view, waits)) =
        after_register-WaitsHidden
          (record { dart_entrypoint_arguments = some arguments; os = registered }) in
      rw (my_application_local_command_line, ok)
        (exits, hidden, view, waits.1, first_frame_cb-shows _ view _ hidden waits)
