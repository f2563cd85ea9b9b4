-- ===== src/Schema.antt =====
-- The model of a store: schema.hpp, and the switches over it in schema.cpp.
pub mod Ids
pub mod Codes
pub mod Parse
pub mod Order
use ob_dump.Base.{ℕ, List, [], ◌∷◌, Bool, Option, none, some, Bytes, codes, ◌==◌, if◌then◌else◌}
use ob_dump.Base.Int.{ℤ, pos, negsuc, eqb_ℤ}

pub data PropertyType : Type 0 where
  bool byte short char int long float double : PropertyType
  string date relation date_nano flex : PropertyType
  bool_vector byte_vector short_vector char_vector int_vector long_vector : PropertyType
  float_vector double_vector string_vector date_vector date_nano_vector : PropertyType
  unknown : PropertyType

-- The enumerators' values.
abbrev pub type_code : PropertyType → ℤ
type_code bool = pos 1
type_code byte = pos 2
type_code short = pos 3
type_code char = pos 4
type_code int = pos 5
type_code long = pos 6
type_code float = pos 7
type_code double = pos 8
type_code string = pos 9
type_code date = pos 10
type_code relation = pos 11
type_code date_nano = pos 12
type_code flex = pos 13
type_code bool_vector = pos 22
type_code byte_vector = pos 23
type_code short_vector = pos 24
type_code char_vector = pos 25
type_code int_vector = pos 26
type_code long_vector = pos 27
type_code float_vector = pos 28
type_code double_vector = pos 29
type_code string_vector = pos 30
type_code date_vector = pos 31
type_code date_nano_vector = pos 32
type_code unknown = negsuc 0

-- The cases of `toPropertyType`, in their order.
abbrev pub listed_types : List PropertyType
listed_types =
    bool ∷ byte ∷ short ∷ char ∷ int ∷ long ∷ float ∷ double ∷ string ∷ date ∷ relation ∷ date_nano
    ∷ flex ∷ bool_vector ∷ byte_vector ∷ short_vector ∷ char_vector ∷ int_vector ∷ long_vector
    ∷ float_vector ∷ double_vector ∷ string_vector ∷ date_vector ∷ date_nano_vector ∷ []

-- A switch whose case for an enumerator returns it.
switch_type : List PropertyType → ℤ → PropertyType
switch_type [] raw = unknown
switch_type (t ∷ cases) raw = if eqb_ℤ raw (type_code t) then t else switch_type cases raw

unfoldable pub to_property_type : ℤ → PropertyType
unfolding switch_type
to_property_type raw = switch_type listed_types raw

unfoldable pub to_string : PropertyType → Bytes
to_string bool = codes "Bool"
to_string byte = codes "Byte"
to_string short = codes "Short"
to_string char = codes "Char"
to_string int = codes "Int"
to_string long = codes "Long"
to_string float = codes "Float"
to_string double = codes "Double"
to_string string = codes "String"
to_string date = codes "Date"
to_string relation = codes "Relation"
to_string date_nano = codes "DateNano"
to_string flex = codes "Flex"
to_string bool_vector = codes "BoolVector"
to_string byte_vector = codes "ByteVector"
to_string short_vector = codes "ShortVector"
to_string char_vector = codes "CharVector"
to_string int_vector = codes "IntVector"
to_string long_vector = codes "LongVector"
to_string float_vector = codes "FloatVector"
to_string double_vector = codes "DoubleVector"
to_string string_vector = codes "StringVector"
to_string date_vector = codes "DateVector"
to_string date_nano_vector = codes "DateNanoVector"
to_string unknown = codes "Unknown"

abbrev pub property_flag_unsigned : ℕ
property_flag_unsigned = 8192

-- The codes of namespace ExternalPropertyType; 0 is `Unknown`.
pub data ExternalType : Type 0 where
  int128 uuid decimal128 flex_map flex_vector json bson java_script json_to_native : ExternalType
  int128_vector uuid_vector : ExternalType

abbrev pub external_code : ExternalType → ℤ
external_code int128 = pos 100
external_code uuid = pos 102
external_code decimal128 = pos 103
external_code flex_map = pos 107
external_code flex_vector = pos 108
external_code json = pos 109
external_code bson = pos 110
external_code java_script = pos 111
external_code json_to_native = pos 112
external_code int128_vector = pos 116
external_code uuid_vector = pos 118

abbrev pub external_unknown : ℤ
external_unknown = pos 0

-- `code == ExternalPropertyType::…`
abbrev pub is_external : ℤ → ExternalType → Bool
is_external code e = eqb_ℤ code (external_code e)

abbrev external_label : ExternalType → Bytes
external_label int128 = codes "Int128"
external_label uuid = codes "Uuid"
external_label decimal128 = codes "Decimal128"
external_label flex_map = codes "FlexMap"
external_label flex_vector = codes "FlexVector"
external_label json = codes "Json"
external_label bson = codes "Bson"
external_label java_script = codes "JavaScript"
external_label json_to_native = codes "JsonToNative"
external_label int128_vector = codes "Int128Vector"
external_label uuid_vector = codes "UuidVector"

-- The cases of `externalTypeName`, in their order.
abbrev pub listed_externals : List ExternalType
listed_externals =
    int128 ∷ uuid ∷ decimal128 ∷ flex_map ∷ flex_vector ∷ json ∷ bson ∷ java_script ∷ json_to_native
    ∷ int128_vector ∷ uuid_vector ∷ []

-- A switch whose case for a code returns its name; the default is nullptr.
switch_external : List ExternalType → ℤ → Option Bytes
switch_external [] code = none
switch_external (e ∷ cases) code =
    if is_external code e then some (external_label e) else switch_external cases code

unfoldable pub external_type_name : ℤ → Option Bytes
unfolding switch_external
external_type_name code = switch_external listed_externals code

pub record PropertyDef : Type 0 where
  pub id : ℤ
  pub name : Bytes
  pub type : PropertyType
  pub is_unsigned : Bool
  pub external_type : ℤ

pub record RelationDef : Type 0 where
  pub id : ℤ
  pub name : Bytes
  pub target_entity_id : ℤ

pub record EntityDef : Type 0 where
  pub entity_id : ℤ
  pub name : Bytes
  pub properties : List PropertyDef
  pub relations : List RelationDef
