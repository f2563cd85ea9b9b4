-- ===== src/Runner/Main.antt =====
-- dart/example/windows/runner/main.cpp, and the console of utils.cpp.
use ob_dump.Base.{
  ℕ, zero, suc, List, Bool, true, false, not, ◌&&◌, if◌then◌else◌, Option, none, some, Bytes, codes,
}
use ob_dump.Runner.{Message, Program, Desktop, on_os, Doubles}
use ob_dump.Runner.Window.{set_quit_on_close}
use ob_dump.Runner.Window.Flutter.{wnd_proc, create, construct, destruct}
use ob_dump.Runner.Arguments.{Wide, Conversion, get_command_line_arguments}

-- Consoles, COM, the command line and the message queue. The two `freopen_s` return whether they
-- failed, and `get_message` no message on WM_QUIT; its failure is for a wrong handle or pointer, and
-- here both are constants. A dispatched message goes to the window
-- procedure of the window's class.
pub record Session (Os : Type 0) : Type 0 where
  pub attach_console : Os → Bool × Os
  pub is_debugger_present : Os → Bool
  pub alloc_console : Os → Bool × Os
  pub freopen_stdout : Os → Bool × Os
  pub freopen_stderr : Os → Bool × Os
  pub dup_stdout_to : ℕ → Os → Os
  pub sync_with_stdio : Os → Os
  pub resync_output_streams : Os → Os
  pub co_initialize : Os → Os
  pub co_uninitialize : Os → Os
  pub command_line_to_argv : Os → Option (List (Option Wide)) × Os
  pub local_free : Os → Os
  pub get_message : Os → Option (ℕ × Message) × Os
  pub translate_message : ℕ → Message → Os → Os
  pub has_runner_class : ℕ → Os → Bool
  pub dispatch_elsewhere : ℕ → Message → Os → Os

-- How a run ends: `crashed` has followed a null pointer, and `unfinished` is out of fuel.
pub data Ended {ℓ} (A : Type ℓ) : Type ℓ where
  exited : A → Ended A
  crashed unfinished : Ended A

abbrev pub exit_success : ℕ
exit_success = 0

abbrev pub exit_failure : ℕ
exit_failure = 1

module _ {Os : Type 0} (D : Desktop Os) (S : Session Os) where
  redirect : Bool × Os → ℕ → Os
  redirect (failed, os) descriptor = if failed then S.dup_stdout_to descriptor os else os

  -- What follows AllocConsole.
  reopen_streams : Os → Os
  unfolding redirect
  reopen_streams os =
      let first = redirect (S.freopen_stdout os) 1 in
      let second = redirect (S.freopen_stderr first) 2 in
      S.resync_output_streams (S.sync_with_stdio second)

  unfoldable pub create_and_attach_console : Os → Os
  unfolding reopen_streams
  create_and_attach_console os =
      let (allocated, opened) = S.alloc_console os in
      if allocated then reopen_streams opened else opened

  -- The console of a parent process, or one of its own under a debugger.
  unfoldable pub start_console : Os → Os
  unfolding create_and_attach_console
  start_console os =
      let (attached, after) = S.attach_console os in
      if not attached && S.is_debugger_present after then create_and_attach_console after else after

  -- `LocalFree(argv)`, if there is one.
  free_arguments : Option (List (Option Wide)) → Os → Os
  free_arguments none os = os
  free_arguments (some argv) os = S.local_free os

  unfoldable pub read_arguments : Conversion → Os → List Bytes × Os
  unfolding free_arguments get_command_line_arguments
  read_arguments C os =
      let (argv, after) = S.command_line_to_argv os in
      (get_command_line_arguments C argv, free_arguments argv after)

  unfoldable pub dispatch_to : Bool → ℕ → Message → Program Os → Option (Program Os)
  unfolding wnd_proc
  dispatch_to true hwnd message p = elim (wnd_proc D hwnd message p) [
    | none ↦ none
    | some (result, q) ↦ some q
  ]
  dispatch_to false hwnd message p = some (on_os (S.dispatch_elsewhere hwnd message) p)

  unfoldable pub dispatch_message : ℕ → Message → Program Os → Option (Program Os)
  unfolding dispatch_to
  dispatch_message hwnd message p = dispatch_to (S.has_runner_class hwnd p.os) hwnd message p

  unfoldable pub message_loop : ℕ → Program Os → Ended (Program Os)
  unfolding dispatch_message
  message_loop zero p = unfinished
  message_loop (suc fuel) p =
      let (got, os) = S.get_message p.os in
      elim got [
        | none ↦ exited (record p { os = os })
        | some (hwnd, message) ↦
            elim (dispatch_message hwnd message
              (record p { os = S.translate_message hwnd message os })) [
                | none ↦ crashed
                | some q ↦ message_loop fuel q
              ]
      ]

  -- What follows the loop: the window is destructed as the function returns.
  unfoldable pub leave : Ended (Program Os) → Ended (ℕ × Program Os)
  unfolding destruct
  leave (exited p) = exited (exit_success, destruct D (on_os S.co_uninitialize p))
  leave crashed = crashed
  leave unfinished = unfinished

  unfoldable pub run_created : ℕ → Bool × Program Os → Ended (ℕ × Program Os)
  unfolding destruct leave message_loop set_quit_on_close
  run_created fuel (false, p) = exited (exit_failure, destruct D p)
  run_created fuel (true, p) = leave (message_loop fuel (set_quit_on_close D true p))

  -- wWinMain up to the window's creation.
  unfoldable pub open_window : {F : Type 0} → Doubles F → Conversion → Os → Bool × Program Os
  unfolding start_console read_arguments construct create
  open_window N C os =
      let (project, ready) = read_arguments C (S.co_initialize (start_console os)) in
      create D N (codes "ob_dump_example") (record { x = 10; y = 10 })
        (record { width = 1280; height = 720 }) (construct D project ready)

  unfoldable pub w_win_main :
      {F : Type 0} → Doubles F → Conversion → ℕ → Os → Ended (ℕ × Program Os)
  unfolding run_created open_window
  w_win_main N C fuel os = run_created fuel (open_window N C os)
