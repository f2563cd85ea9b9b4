-- ===== src/Cli/Files.antt =====
-- The files that main.c reads and writes whole.
use ob_dump.Base.{
  ℕ, ◌+◌, not, ◌||◌, Option, none, some, Bytes, codes, ◌++◌, length, ◌==◌, if◌then◌else◌,
}
use ob_dump.Base.Int.{ℤ, pos, pos_part, ltb_ℤ}
use ob_dump.Api.{Process, allocated, freed, c_string, terminated, ob_dump_free}
use ob_dump.Cli.{
  Host, Io, file_opened, file_closed, output_opened, print_error, to_stdout, to_file, fputs,
}

module _ (H : Host) where
  -- From malloc on.
  read_bytes : Bytes → ℕ → Process Io → Option Bytes × Process Io
  read_bytes path size p =
      if not (H.malloc (size + 1))
      then (none, file_closed p)
      else let buf = H.fread path size in
        if length buf == size
        then (some (terminated buf), file_closed (allocated p))
        else (none, freed (file_closed (allocated p)))

  read_sized : Bytes → ℤ → Process Io → Option Bytes × Process Io
  read_sized path size p =
      if ltb_ℤ size (pos 0) || not (H.fseek_set path)
      then (none, file_closed p)
      else read_bytes path (pos_part size) p

  read_opened : Bytes → Process Io → Option Bytes × Process Io
  read_opened path p =
      if not (H.fseek_end path) then (none, file_closed p) else read_sized path (H.ftell path) p

  unfoldable pub read_file : Bytes → Process Io → Option Bytes × Process Io
  unfolding read_bytes read_sized read_opened
  read_file path p = if not (H.fopen_rb path) then (none, p) else read_opened path (file_opened p)

  abbrev pub no_output : Bytes → Bytes
  no_output path = codes "error: cannot open output file: " ++ path ++ codes "\n"

  -- The result is written up to its NUL.
  unfoldable pub write_result_and_free : Bytes → Option Bytes → Process Io → ℤ × Process Io
  write_result_and_free result none p =
      (pos 0, ob_dump_free (some result) (fputs (c_string result ++ codes "\n") to_stdout p))
  write_result_and_free result (some out_path) p =
      if H.fopen_wb out_path
      then (
        pos 0,
        ob_dump_free (some result)
            (file_closed (fputs (c_string result) to_file (output_opened p))),
      )
      else (pos 1, ob_dump_free (some result) (print_error (no_output out_path) p))
