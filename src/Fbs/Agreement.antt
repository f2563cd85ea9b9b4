-- ===== src/Fbs/Agreement.antt =====
-- The field types of a generated table, against the way the decoder reads a property.
use ob_dump.Base.{
  Bool, true, false, not, Bytes, codes, ◌++◌, ◌≡◌, ◌≢◌, refl, ap, ◌∙◌, arith, if◌then◌else◌,
}
use ob_dump.Schema.{PropertyType, PropertyDef}
use ob_dump.Decode.{Scalar}
use ob_dump.Decode.Object.Wire.{
  Wire, typed_wire, boolean, text, json_text, booleans, texts, flexible, skipped, scalar, numbers,
  blob,
}
use ob_dump.Fbs.{fbs_type_name, is_vector_type, field_type, field_comment, field_body, write_field}

-- The IDL's name of a C type.
abbrev keyword : Scalar → Bytes
keyword Scalar.uint8 = codes "ubyte"
keyword Scalar.int8 = codes "byte"
keyword Scalar.uint16 = codes "ushort"
keyword Scalar.int16 = codes "short"
keyword Scalar.uint32 = codes "uint"
keyword Scalar.int32 = codes "int"
keyword Scalar.uint64 = codes "ulong"
keyword Scalar.int64 = codes "long"
keyword Scalar.float32 = codes "float"
keyword Scalar.float64 = codes "double"

-- The type of a field of which the decoder's reads are sound, and whether it is a vector. The bytes
-- of a blob and those of a FlexBuffers value are read as a vector of unsigned bytes.
abbrev pub idl_of : Wire → Bytes × Bool
idl_of boolean = (codes "bool", false)
idl_of (scalar T) = (keyword T, false)
idl_of text = (codes "string", false)
idl_of json_text = (codes "string", false)
idl_of booleans = (codes "bool", true)
idl_of (numbers T) = (keyword T, true)
idl_of (blob as_uuid) = (codes "ubyte", true)
idl_of texts = (codes "string", true)
idl_of flexible = (codes "ubyte", true)
idl_of skipped = (codes "ubyte", false)

-- A blob whose property is not flagged unsigned.
abbrev pub is_signed_blob : Wire → Bool → Bool
is_signed_blob (blob as_uuid) u = not u
is_signed_blob _ u = false

-- A type as the IDL writes it.
abbrev pub idl_text : Bytes × Bool → Bytes
idl_text (name, vector) = if vector then codes "[" ++ name ++ codes "]" else name

abbrev generated : PropertyType → PropertyDef → Bytes × Bool
generated T p = (fbs_type_name T p.is_unsigned, is_vector_type T)

fbs_type_name-wire :
    (T : PropertyType) (p : PropertyDef)
    → T ≢ PropertyType.flex
    → is_signed_blob (typed_wire T p) p.is_unsigned ≡ false
    → generated T p ≡ idl_of (typed_wire T p)
unfolding fbs_type_name is_vector_type
fbs_type_name-wire PropertyType.bool p ne plain = ground (arith, plain)
fbs_type_name-wire PropertyType.byte p ne plain = ground (arith, plain)
fbs_type_name-wire PropertyType.short p ne plain = ground (arith, plain)
fbs_type_name-wire PropertyType.char p ne plain = ground (arith, plain)
fbs_type_name-wire PropertyType.int p ne plain = ground (arith, plain)
fbs_type_name-wire PropertyType.long p ne plain = ground (arith, plain)
fbs_type_name-wire PropertyType.float p ne plain = ground (arith, plain)
fbs_type_name-wire PropertyType.double p ne plain = ground (arith, plain)
fbs_type_name-wire PropertyType.string p ne plain = ground (arith, plain)
fbs_type_name-wire PropertyType.date p ne plain = ground (arith, plain)
fbs_type_name-wire PropertyType.relation p ne plain = ground (arith, plain)
fbs_type_name-wire PropertyType.date_nano p ne plain = ground (arith, plain)
fbs_type_name-wire PropertyType.flex p ne plain = absurd (ne refl)
fbs_type_name-wire PropertyType.bool_vector p ne plain = ground (arith, plain)
fbs_type_name-wire PropertyType.byte_vector p ne plain = ground (arith, plain)
fbs_type_name-wire PropertyType.short_vector p ne plain = ground (arith, plain)
fbs_type_name-wire PropertyType.char_vector p ne plain = ground (arith, plain)
fbs_type_name-wire PropertyType.int_vector p ne plain = ground (arith, plain)
fbs_type_name-wire PropertyType.long_vector p ne plain = ground (arith, plain)
fbs_type_name-wire PropertyType.float_vector p ne plain = ground (arith, plain)
fbs_type_name-wire PropertyType.double_vector p ne plain = ground (arith, plain)
fbs_type_name-wire PropertyType.string_vector p ne plain = ground (arith, plain)
fbs_type_name-wire PropertyType.date_vector p ne plain = ground (arith, plain)
fbs_type_name-wire PropertyType.date_nano_vector p ne plain = ground (arith, plain)
fbs_type_name-wire PropertyType.unknown p ne plain = ground (arith, plain)

field_type-wire :
    (T : PropertyType) (p : PropertyDef)
    → p.type ≡ T
    → T ≢ PropertyType.flex
    → is_signed_blob (typed_wire T p) p.is_unsigned ≡ false
    → field_type p ≡ idl_text (idl_of (typed_wire T p))
unfolding field_type
field_type-wire T p same ne plain =
    ap (λ (S : PropertyType). idl_text (generated S p)) same
    ∙ ap idl_text (fbs_type_name-wire T p ne plain)

typed :
    (T : PropertyType) (p : PropertyDef)
    → p.type ≡ T
    → T ≢ PropertyType.flex
    → is_signed_blob (typed_wire T p) p.is_unsigned ≡ false
    → (rest : Bytes) × (field_type p ++ codes ";" ++ field_comment p
        ≡ idl_text (idl_of (typed_wire T p)) ++ codes ";" ++ rest)
typed T p same ne plain = (
  field_comment p,
  ap (λ (t : Bytes). t ++ codes ";" ++ field_comment p) (field_type-wire T p same ne plain),
)

field_body-wire :
    (T : PropertyType) (p : PropertyDef)
    → p.type ≡ T
    → T ≢ PropertyType.unknown
    → is_signed_blob (typed_wire T p) p.is_unsigned ≡ false
    → (rest : Bytes) × (field_body T p ≡ idl_text (idl_of (typed_wire T p)) ++ codes ";" ++ rest)
unfolding field_body
field_body-wire PropertyType.bool p same ne plain = typed PropertyType.bool p same (λ e. cc) plain
field_body-wire PropertyType.byte p same ne plain = typed PropertyType.byte p same (λ e. cc) plain
field_body-wire PropertyType.short p same ne plain = typed PropertyType.short p same (λ e. cc) plain
field_body-wire PropertyType.char p same ne plain = typed PropertyType.char p same (λ e. cc) plain
field_body-wire PropertyType.int p same ne plain = typed PropertyType.int p same (λ e. cc) plain
field_body-wire PropertyType.long p same ne plain = typed PropertyType.long p same (λ e. cc) plain
field_body-wire PropertyType.float p same ne plain = typed PropertyType.float p same (λ e. cc) plain
field_body-wire PropertyType.double p same ne plain =
    typed PropertyType.double p same (λ e. cc) plain
field_body-wire PropertyType.string p same ne plain =
    typed PropertyType.string p same (λ e. cc) plain
field_body-wire PropertyType.date p same ne plain = typed PropertyType.date p same (λ e. cc) plain
field_body-wire PropertyType.relation p same ne plain =
    typed PropertyType.relation p same (λ e. cc) plain
field_body-wire PropertyType.date_nano p same ne plain =
    typed PropertyType.date_nano p same (λ e. cc) plain
field_body-wire PropertyType.flex p same ne plain = (_, refl)
field_body-wire PropertyType.bool_vector p same ne plain =
    typed PropertyType.bool_vector p same (λ e. cc) plain
field_body-wire PropertyType.byte_vector p same ne plain =
    typed PropertyType.byte_vector p same (λ e. cc) plain
field_body-wire PropertyType.short_vector p same ne plain =
    typed PropertyType.short_vector p same (λ e. cc) plain
field_body-wire PropertyType.char_vector p same ne plain =
    typed PropertyType.char_vector p same (λ e. cc) plain
field_body-wire PropertyType.int_vector p same ne plain =
    typed PropertyType.int_vector p same (λ e. cc) plain
field_body-wire PropertyType.long_vector p same ne plain =
    typed PropertyType.long_vector p same (λ e. cc) plain
field_body-wire PropertyType.float_vector p same ne plain =
    typed PropertyType.float_vector p same (λ e. cc) plain
field_body-wire PropertyType.double_vector p same ne plain =
    typed PropertyType.double_vector p same (λ e. cc) plain
field_body-wire PropertyType.string_vector p same ne plain =
    typed PropertyType.string_vector p same (λ e. cc) plain
field_body-wire PropertyType.date_vector p same ne plain =
    typed PropertyType.date_vector p same (λ e. cc) plain
field_body-wire PropertyType.date_nano_vector p same ne plain =
    typed PropertyType.date_nano_vector p same (λ e. cc) plain
field_body-wire PropertyType.unknown p same ne plain = absurd (ne refl)

-- The field that is written for a property of a known type has its name and the type that the
-- decoder reads it at, with a vector where a vector is read, a FlexBuffers value included, unless it
-- is a blob without the unsigned flag.
pub write_field-wire :
    (p : PropertyDef)
    → p.type ≢ PropertyType.unknown
    → is_signed_blob (typed_wire p.type p) p.is_unsigned ≡ false
    → (rest : Bytes) × (write_field p
        ≡ codes "  "
          ++ p.name
          ++ codes ":"
          ++ (idl_text (idl_of (typed_wire p.type p)) ++ codes ";" ++ rest))
unfolding write_field
write_field-wire p ne plain =
    let (rest, e) = field_body-wire p.type p refl ne plain in
    (rest, ap (λ (b : Bytes). codes "  " ++ p.name ++ codes ":" ++ b) e)
