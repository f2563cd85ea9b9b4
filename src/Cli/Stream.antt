-- ===== src/Cli/Stream.antt =====
-- `json_stream_cb` of main.c: the JSON that is written record by record.
pub mod Groups
use ob_dump.Base.{
  ℕ, List, [], ◌∷◌, ◌++◌, Bool, true, false, not, ◌||◌, Bytes, codes, take, eqb, if◌then◌else◌,
}
use ob_dump.Base.Int.{ℤ, pos}
use ob_dump.Api.{ObDumpRecordCallback}

-- `out` is the text that stands in the stream; `last_entity` is the C string in the array of 256.
pub record JsonStreamCtx : Type 0 where
  pub out : Bytes
  pub last_entity : Bytes
  pub wrote_any_entity : Bool
  pub wrote_any_in_current_entity : Bool

abbrev pub puts : Bytes → JsonStreamCtx → JsonStreamCtx
puts text ctx = record ctx { out = ctx.out ++ text }

-- After memset.
abbrev pub start_ctx : Bytes → JsonStreamCtx
start_ctx out = record {
  out = out;
  last_entity = [];
  wrote_any_entity = false;
  wrote_any_in_current_entity = false;
}

-- `lastEntity[0] == '\0'`
abbrev is_empty : Bytes → Bool
is_empty [] = true
is_empty (b ∷ bs) = false

is_new_entity : JsonStreamCtx → Bytes → Bool
is_new_entity ctx entity_name = is_empty ctx.last_entity || not (eqb ctx.last_entity entity_name)

abbrev entity_head : Bytes → Bytes
entity_head name = codes "  \"" ++ name ++ codes "\": [\n"

-- The block of a new entity; strncpy of at most 255 bytes, and the NUL behind them.
begin_entity : JsonStreamCtx → Bytes → JsonStreamCtx
begin_entity ctx entity_name =
    let closed = puts (if ctx.wrote_any_entity then codes "\n  ],\n" else codes "{\n") ctx in
    record (puts (entity_head entity_name) closed) {
      last_entity = take 255 entity_name;
      wrote_any_entity = true;
      wrote_any_in_current_entity = false;
    }

write_record : JsonStreamCtx → Bytes → JsonStreamCtx
write_record ctx fields_json =
    let parted = if ctx.wrote_any_in_current_entity then puts (codes ",\n") ctx else ctx in
    record (puts (codes "    " ++ fields_json) parted) { wrote_any_in_current_entity = true }

unfoldable pub json_stream_cb : ObDumpRecordCallback JsonStreamCtx
unfolding is_new_entity begin_entity write_record
json_stream_cb entity_name object_id fields_json ctx =
    let begun = if is_new_entity ctx entity_name then begin_entity ctx entity_name else ctx in
    (pos 0, write_record begun fields_json)

-- What `run_json` writes behind the last record.
unfoldable pub closing : Bool → Bytes
closing wrote_any_entity = if wrote_any_entity then codes "\n  ]\n}\n" else codes "{}\n"
