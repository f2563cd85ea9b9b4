-- ===== src/Decode.antt =====
-- FlatBuffers and FlexBuffers, which the sources only call: parameters. The decoder of
-- fb_decode.cpp is in the modules below.
pub mod Hex
pub mod Flex
pub mod Fields
pub mod Object
use ob_dump.Base.{ℕ, zero, suc, ◌+◌, ◌-◌, ◌*◌, ◌<◌, Bool, true, Option, Bytes, ◌≡◌}
use ob_dump.Base.Int.{ℤ, pos, wrap, ◌+ℤ◌, ◌-ℤ◌, ◌*ℤ◌}
use ob_dump.Json.{Number, JsonLib}

-- The C types that a field or an element of a vector is read at.
pub data Scalar : Type 0 where
  uint8 int8 uint16 int16 uint32 int32 uint64 int64 float32 float64 : Scalar

abbrev pub size_of : Scalar → ℕ
size_of Scalar.uint8 = 1
size_of Scalar.int8 = 1
size_of Scalar.uint16 = 2
size_of Scalar.int16 = 2
size_of Scalar.uint32 = 4
size_of Scalar.int32 = 4
size_of Scalar.uint64 = 8
size_of Scalar.int64 = 8
size_of Scalar.float32 = 4
size_of Scalar.float64 = 8

-- flatbuffers::Verifier and flatbuffers::Table; `none` is a null pointer.
pub record FlatLib (F : Type 0) : Type 1 where
  pub Verifier : Type 0
  pub Table : Type 0
  pub Pointer : Type 0
  pub verifier : Bytes → Verifier
  -- v.VerifyOffset<uoffset_t>(0), GetRoot<Table>, VerifyTableStart
  pub verify_root_offset : Verifier → ℕ
  pub get_root : Bytes → Table
  pub verify_table_start : Table → Verifier → Bool
  -- CheckField, VerifyField<T>(v, slot, align), GetField<T>(slot, T{})
  pub check_field : Table → ℕ → Bool
  pub verify_field : Scalar → Table → Verifier → ℕ → ℕ → Bool
  pub get_field : Scalar → Table → ℕ → Number F
  pub get_uint8 : Table → ℕ → ℕ
  -- VerifyOffset, GetPointer
  pub verify_offset : Table → Verifier → ℕ → Bool
  pub get_pointer : Table → ℕ → Option Pointer
  -- VerifyString, VerifyVector at an element type, at offsets, VerifyVectorOfStrings
  pub verify_string : Verifier → Option Pointer → Bool
  pub verify_vector : Scalar → Verifier → Option Pointer → Bool
  pub verify_offsets : Verifier → Option Pointer → Bool
  pub verify_vector_of_strings : Verifier → Option Pointer → Bool
  -- String::str, Vector::size, Vector::Get at each element type, Vector::Data
  pub string_at : Pointer → Bytes
  pub vector_size : Pointer → ℕ
  pub vector_get : Scalar → Pointer → ℕ → Number F
  pub vector_uint8 : Pointer → ℕ → ℕ
  pub vector_string : Pointer → ℕ → Bytes
  pub vector_data : Pointer → Bytes

-- flexbuffers::Reference.
pub record FlexLib (F : Type 0) : Type 1 where
  pub Reference : Type 0
  pub Vec : Type 0
  pub Map : Type 0
  pub verify_buffer : Bytes → Bool
  pub get_root : Bytes → Reference
  pub is_null : Reference → Bool
  pub is_bool : Reference → Bool
  pub is_int : Reference → Bool
  pub is_uint : Reference → Bool
  pub is_float : Reference → Bool
  pub is_string : Reference → Bool
  pub is_blob : Reference → Bool
  pub is_map : Reference → Bool
  pub is_typed_vector : Reference → Bool
  pub is_fixed_typed_vector : Reference → Bool
  pub is_vector : Reference → Bool
  pub as_bool : Reference → Bool
  pub as_int64 : Reference → ℤ
  pub as_uint64 : Reference → ℕ
  pub as_double : Reference → F
  pub as_string : Reference → Bytes
  pub as_blob : Reference → Bytes
  pub as_key : Reference → Bytes
  pub as_map : Reference → Map
  pub keys : Map → Vec
  pub values : Map → Vec
  pub as_typed_vector : Reference → Vec
  pub as_fixed_typed_vector : Reference → Vec
  pub as_vector : Reference → Vec
  pub size : Vec → ℕ
  pub element : Vec → ℕ → Reference
  -- How deep values are nested in the value; it bounds the recursion of the model.
  pub depth : Reference → ℕ

-- `slotFor`: the result is cut to uint16_t.
unfoldable pub slot_for : ℤ → ℕ
slot_for id = wrap 65536 (pos 4 +ℤ (id -ℤ pos 1) *ℤ pos 2)
