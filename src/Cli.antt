-- ===== src/Cli.antt =====
-- cli/main.c: the command line program.
pub mod Stream
pub mod Files
pub mod Run
use ob_dump.Base.{ℕ, ◌+◌, ◌-◌, List, Bool, Bytes, codes, ◌++◌}
use ob_dump.Base.Int.{ℤ}
use ob_dump.Api.{Process}

-- What the C library says of files: whether fopen, fseek and malloc succeed, what ftell returns at
-- the end, and what fread of a number of bytes puts into the buffer.
pub record Host : Type 0 where
  pub fopen_rb : Bytes → Bool
  pub fseek_end : Bytes → Bool
  pub ftell : Bytes → ℤ
  pub fseek_set : Bytes → Bool
  pub malloc : ℕ → Bool
  pub fread : Bytes → ℕ → Bytes
  pub fopen_wb : Bytes → Bool

-- The text of the two standard streams and of the output file, and how many files are open.
pub record Io : Type 0 where
  pub stdout : Bytes
  pub stderr : Bytes
  pub file : Bytes
  pub open_files : ℕ

abbrev pub on_io : (Io → Io) → Process Io → Process Io
on_io f p = record p { user = f p.user }

abbrev pub file_opened : Process Io → Process Io
file_opened = on_io (λ io. record io { open_files = io.open_files + 1 })

abbrev pub file_closed : Process Io → Process Io
file_closed = on_io (λ io. record io { open_files = io.open_files - 1 })

-- fopen(path, "wb") of a file that can be opened: it is empty then.
abbrev pub output_opened : Process Io → Process Io
output_opened = on_io (λ io. record io { file = codes ""; open_files = io.open_files + 1 })

abbrev pub print_error : Bytes → Process Io → Process Io
print_error text = on_io (λ io. record io { stderr = io.stderr ++ text })

-- A `FILE*` that is written to.
pub data Out : Type 0 where
  to_stdout to_file : Out

abbrev pub fputs : Bytes → Out → Process Io → Process Io
fputs text to_stdout = on_io (λ io. record io { stdout = io.stdout ++ text })
fputs text to_file = on_io (λ io. record io { file = io.file ++ text })

-- `if (out != stdout) fclose(out);`
abbrev pub close_out : Out → Process Io → Process Io
close_out to_stdout p = p
close_out to_file p = file_closed p
