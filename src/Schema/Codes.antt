-- ===== src/Schema/Codes.antt =====
-- The switches of schema.cpp over the codes: `toPropertyType`, `toString`, `externalTypeName`.
use ob_dump.Base.{
  List, [], ◌∷◌, none, Bytes, ◌≡◌, ◌≢◌, Bool-cases, inl, inr, ◌↔◌, refl, arith, eqb, if◌then◌else◌,
}
use ob_dump.Base.Int.{ℤ, eqb_ℤ, eqb_ℤ_iff}
use ob_dump.Schema.{
  PropertyType, type_code, listed_types, switch_type, to_property_type, to_string, ExternalType,
  external_code, listed_externals, switch_external, external_type_name,
}

switch_type-found :
    (cases : List PropertyType) (raw : ℤ) (t : PropertyType)
    → switch_type cases raw ≡ t
    → t ≢ PropertyType.unknown
    → raw ≡ type_code t
unfolding switch_type
switch_type-found [] raw t h known = absurd (known (cc))
switch_type-found (c ∷ cases) raw t h known =
    ground (arith, eqb_ℤ_iff raw (type_code c), switch_type-found cases raw t)

to_property_type-code : (t : PropertyType) → to_property_type (type_code t) ≡ t
unfolding to_property_type
to_property_type-code PropertyType.bool = refl
to_property_type-code _ = refl

-- A raw code is read as a type other than Unknown exactly when it is that type's enumerator.
pub to_property_type_iff :
    (raw : ℤ) (t : PropertyType)
    → t ≢ PropertyType.unknown
    → (to_property_type raw ≡ t) ↔ (raw ≡ type_code t)
to_property_type_iff raw t known = (
  λ h. switch_type-found listed_types raw t (unfold to_property_type in h) known,
  λ e. rw e (to_property_type-code t),
)

-- The type whose printed name is `s`.
named_type : List PropertyType → Bytes → PropertyType
named_type [] s = PropertyType.unknown
named_type (t ∷ ts) s = if eqb (to_string t) s then t else named_type ts s

named_type-to_string : (t : PropertyType) → named_type listed_types (to_string t) ≡ t
unfolding named_type to_string eqb
named_type-to_string PropertyType.bool = refl
named_type-to_string _ = refl

-- Two types with the same printed name are the same type.
pub to_string-injective : (t u : PropertyType) → to_string t ≡ to_string u → t ≡ u
to_string-injective t u h = cc (named_type-to_string t, named_type-to_string u, h)

switch_external-found :
    (cases : List ExternalType) (code : ℤ)
    → switch_external cases code ≢ none
    → (e : ExternalType) × (code ≡ external_code e)
unfolding switch_external
switch_external-found [] code h = absurd (h refl)
switch_external-found (e ∷ cases) code h = elim (Bool-cases (eqb_ℤ code (external_code e))) [
  | inl same ↦ (e, (eqb_ℤ_iff code (external_code e)).0 same)
  | inr other ↦ switch_external-found cases code (rw (other, switch_external) at h)
]

external_type_name-code : (e : ExternalType) → external_type_name (external_code e) ≢ none
unfolding external_type_name
external_type_name-code ExternalType.int128 h = cc
external_type_name-code _ h = cc

-- A code has a name exactly when it is one of the listed codes; any other, 0 included, has none.
pub external_type_name_iff :
    (code : ℤ) → (external_type_name code ≢ none) ↔ ((e : ExternalType) × (code ≡ external_code e))
external_type_name_iff code = (
  λ h. switch_external-found listed_externals code (unfold external_type_name in h),
  λ (e, same). rw same (external_type_name-code e),
)
