-- ===== src/Lib.antt =====
-- ob-dump: reads an ObjectBox store, an LMDB database whose records are FlatBuffers tables, with
-- the model's JSON as the schema, and writes it as JSON; it also lists the schema and writes a
-- FlatBuffers IDL of it. A library with a C interface, and a command line program on top.
--
-- Which file models which part:
--   Base         what the modules share: bytes, lists, integers, decimal text, exceptions as values
--                (Base.Exec), actions on a state that may throw (Base.State).
--   Json         nlohmann/json, a parameter, with the laws of its arrays and objects.
--   Schema       src/schema.cpp: the types and their codes; Schema.Ids is parseLeadingId,
--                Schema.Parse is Schema::parse and Schema::find, Schema.Order is Schema::all.
--   Lmdb         src/lmdb_reader.cpp: Lmdb.Reader is the constructor and destructor, Lmdb.Walk is
--                forEachObject, Lmdb.Links is toManyTargets, Lmdb.Keys the bytes of keys. LMDB is a
--                parameter: its return codes, and what its cursors see one entry after the other.
--                The state counts the environments, transactions and cursors that are open.
--   Decode       src/fb_decode.cpp: Decode.Fields has a function for each kind of field,
--                Decode.Object the dispatch and the loop, Decode.Flex flexToJson, Decode.Hex toHex
--                and hexAsUuid. FlatBuffers and FlexBuffers are parameters.
--   Dump         src/dumper.cpp: dumpToJson and dumpStreaming, as callbacks of Lmdb.Walk.
--   Fbs          src/fbs_gen.cpp: the IDL's text.
--   SchemaJson   src/schema_json.cpp: the schema's listing.
--   Api          src/ob_dump.cpp and include/ob_dump.h: the exported functions, with the last error
--                and the allocated blocks as state; ob_dump itself is ob_dump_json here. Api.Client is a
--                client that calls them one after the other and frees what it was given.
--   Cli          cli/main.c: Cli.Files reads and writes files, Cli.Stream is json_stream_cb, Cli.Run
--                has the modes and main. The C library's files and memory are a parameter (Host).
--   Runner       dart/example/windows/runner and dart/example/linux/runner, the programs of the Dart
--                package's example: Runner.Window is win32_window.cpp, Runner.Window.Flutter
--                flutter_window.cpp with the functions that call its virtual ones, Runner.Arguments and
--                Runner.Main utils.cpp and main.cpp, Runner.Linux my_application.cc. Win32, GTK and
--                Flutter are parameters; calls of Win32 that run the window procedure get the whole
--                program, and what Win32 documents of them is Runner.Window.Life.Win32Laws. What GTK
--                documents of widgets is Runner.Linux.FirstFrame.GtkLaws.
--   Examples     small instances of the parameters, and runs.
--
-- Text is its bytes. Integers keep their widths where the source relies on them: uint32_t in keys,
-- uint8_t in a key's relation byte, uint16_t in slotFor, int in std::stoi. An exception is a value
-- with the state that it leaves behind; nlohmann's parse_error is told apart from the others.
--
-- Loops are structural recursion: over a list, over the entries that a cursor sees, over the rounds
-- left of a for. flexToJson recurs on a bound, the depth of the value, which is enough for any finite
-- value. The message loop of the runner runs on fuel, since it has no end of its own: two rounds are
-- enough once the window's close is the next message.
--
-- A property's id in the generator of the IDL is below INT_MAX: at INT_MAX its loop overflows.
--
-- Not modelled: the libraries themselves (the copy of LMDB in dart/src/lmdb among them), the packages
-- for Dart, Python and JavaScript apart from the example's runners, what GLib is told of the runner for
-- Linux (class_init, init, main.cc), more than one thread, and failing writes of the program, whose
-- results it does not look at.
pub mod Base
pub mod Json
pub mod Schema
pub mod Lmdb
pub mod Decode
pub mod Dump
pub mod Fbs
pub mod SchemaJson
pub mod Api
pub mod Cli
pub mod Runner
pub mod Examples
