-- ===== src/Schema/Parse.antt =====
-- `Schema::parse` and `Schema::find` of schema.cpp.
pub mod Map
pub mod Reads
use Prim.Native.Nat.{bit_and}
use ob_dump.Base.{
  ℕ, List, [], ◌∷◌, ◌++◌, Bool, true, false, not, ◌&&◌, ◌||◌, Option, none, some, ◌≡◌, refl, Bytes,
  codes, ◌==◌, ◌^◌, if◌then◌else◌,
}
use ob_dump.Base.Int.{ℤ, eqb_ℤ, wrap}
use ob_dump.Base.Exec.{Result, ok, runtime_error, ◌>>=◌}
use ob_dump.Json.{JsonLib}
use ob_dump.Schema.{
  PropertyDef, RelationDef, EntityDef, to_property_type, property_flag_unsigned, external_unknown,
}
use ob_dump.Schema.Ids.{parse_leading_id}

-- `entitiesById_`: the entries of the hash map, in the order of their insertion. What depends on
-- the map's own order sorts first.
pub record Schema : Type 0 where
  pub entities_by_id : List EntityDef

pub find_in : List EntityDef → ℤ → Option EntityDef
find_in [] id = none
find_in (e ∷ es) id = if eqb_ℤ e.entity_id id then some e else find_in es id

unfoldable pub find : Schema → ℤ → Option EntityDef
unfolding find_in
find schema id = find_in schema.entities_by_id id

-- `emplace` leaves the map as it is if the key is taken.
emplace : List EntityDef → EntityDef → List EntityDef
emplace es e = elim (find_in es e.entity_id) [ none ↦ es ++ e ∷ [] | some _ ↦ es ]

-- `(flags & kPropertyFlagUnsigned) != 0`
pub has_unsigned_flag : ℤ → Bool
has_unsigned_flag flags = not (bit_and (wrap (2 ^ 32) flags) property_flag_unsigned == 0)

module _ {F : Type 0} (J : JsonLib F) where
  open J use {Value, at, contains, get_string, get_int, items}

  id_at : Value → Bytes → Result ℤ
  id_at v key = do field ← at v key; text ← get_string field; parse_leading_id text

  string_at : Value → Bytes → Result Bytes
  string_at v key = do field ← at v key; get_string field

  int_at : Value → Bytes → Result ℤ
  int_at v key = do field ← at v key; get_int field

  flags_of : Value → Result Bool
  flags_of p =
      if contains p (codes "flags")
      then (do flags ← int_at p (codes "flags"); ok (has_unsigned_flag flags))
      else ok false

  external_of : Value → Result ℤ
  external_of p =
      if contains p (codes "externalType")
      then int_at p (codes "externalType")
      else ok external_unknown

  parse_property : Value → Result PropertyDef
  parse_property p = do
    id ← id_at p (codes "id")
    name ← string_at p (codes "name")
    raw ← int_at p (codes "type")
    is_unsigned ← flags_of p
    external_type ← external_of p
    ok (record {
      id = id;
      name = name;
      type = to_property_type raw;
      is_unsigned = is_unsigned;
      external_type = external_type;
    })

  parse_relation : Value → Result RelationDef
  parse_relation r = do
    id ← id_at r (codes "id")
    name ← string_at r (codes "name")
    target ← id_at r (codes "targetId")
    ok (record { id = id; name = name; target_entity_id = target })

  parse_properties : List Value → List PropertyDef → Result (List PropertyDef)
  parse_properties [] done = ok done
  parse_properties (p ∷ ps) done = do
    prop ← parse_property p
    parse_properties ps (done ++ prop ∷ [])

  parse_relations : List Value → List RelationDef → Result (List RelationDef)
  parse_relations [] done = ok done
  parse_relations (r ∷ rs) done = do rel ← parse_relation r; parse_relations rs (done ++ rel ∷ [])

  relations_of : Value → Result (List RelationDef)
  relations_of e =
      if contains e (codes "relations")
      then (do rs ← at e (codes "relations"); parse_relations (items rs) [])
      else ok []

  pub parse_entity : Value → Result EntityDef
  parse_entity e = do
    entity_id ← id_at e (codes "id")
    name ← string_at e (codes "name")
    ps ← at e (codes "properties")
    properties ← parse_properties (items ps) []
    relations ← relations_of e
    ok (record {
      entity_id = entity_id;
      name = name;
      properties = properties;
      relations = relations;
    })

  parse_entities : List Value → List EntityDef → Result (List EntityDef)
  parse_entities [] done = ok done
  parse_entities (e ∷ es) done = do entity ← parse_entity e; parse_entities es (emplace done entity)

  abbrev no_entities : Bytes
  no_entities = codes "model json has no \"entities\" array"

  schema_of : Value → Result Schema
  schema_of model =
      if not (contains model (codes "entities"))
        || not (J.is_array (J.index model (codes "entities")))
      then runtime_error no_entities
      else do
        es ← parse_entities (items (J.index model (codes "entities"))) []
        ok (record { entities_by_id = es })

  unfoldable pub parse : Bytes → Result Schema
  unfolding has_unsigned_flag find_in emplace id_at string_at int_at flags_of external_of
      parse_property parse_relation parse_properties parse_relations relations_of parse_entity
      parse_entities schema_of
  parse model_json = do model ← J.parse model_json; schema_of model

  parse-schema_of : (s : Bytes) → parse s ≡ (do model ← J.parse s; schema_of model)
  unfolding parse
  parse-schema_of s = refl
