-- ===== src/Schema/Parse/Map.antt =====
-- The map of `Schema::parse`: the first entity of an id stays, and `find` returns it.
use mathlib.Core.List.{Mem, Pairwise, mem-cons, not-mem-nil, Pairwise-append, Pairwise-singleton}
use mathlib.Core.HLevel.{¬_prop}
use mathlib.Core.Logic.Or
use ob_dump.Base.{
  List, [], ◌∷◌, ◌++◌, Option, none, some, Bytes, codes, ◌≡◌, ◌≢◌, refl, ap, sym, arith, inl, inr,
  Option-cases,
}
use ob_dump.Base.Int.{ℤ, eqb_ℤ_iff}
use ob_dump.Base.Exec.{Result, ok, ◌>>=◌, >>=-eq-ok, Result-cases}
use ob_dump.Json.{JsonLib}
use ob_dump.Schema.{EntityDef}
use ob_dump.Schema.Parse.{
  Schema, find, find_in, emplace, parse_entity, parse_entities, schema_of, parse, parse-schema_of,
}
use ob_dump.Schema.Order.{IsDistinct, distinct_prop}

or_else : Option EntityDef → Option EntityDef → Option EntityDef
or_else none o = o
or_else (some e) o = some e

find_in-append :
    (es fs : List EntityDef) (id : ℤ)
    → find_in (es ++ fs) id ≡ or_else (find_in es id) (find_in fs id)
unfolding find_in or_else
find_in-append [] fs id = refl
find_in-append (e ∷ es) fs id = ground (arith, find_in-append es fs id)

emplace_all : List EntityDef → List EntityDef → List EntityDef
emplace_all done [] = done
emplace_all done (e ∷ es) = emplace_all (emplace done e) es

or_else-none : (o : Option EntityDef) → or_else o none ≡ o
unfolding or_else
or_else-none none = refl
or_else-none (some e) = refl

or_else_assoc : (a b c : Option EntityDef) → or_else (or_else a b) c ≡ or_else a (or_else b c)
unfolding or_else
or_else_assoc none b c = refl
or_else_assoc (some e) b c = refl

-- An entity whose id is taken adds nothing to a lookup.
find_in-shadowed :
    (done : List EntityDef) (e x : EntityDef) (id : ℤ)
    → find_in done e.entity_id ≡ some x
    → find_in done id ≡ or_else (find_in done id) (find_in (e ∷ []) id)
unfolding find_in or_else
find_in-shadowed done e x id h = elim (Option-cases (find_in done id)) [
  | inl missing ↦ ground (arith, missing, eqb_ℤ_iff e.entity_id id, ap (find_in done))
  | inr (y, hit) ↦ rw hit
]

find_in-emplace :
    (done : List EntityDef) (e : EntityDef) (id : ℤ)
    → find_in (emplace done e) id ≡ or_else (find_in done id) (find_in (e ∷ []) id)
unfolding emplace
find_in-emplace done e id = elim (Option-cases (find_in done e.entity_id)) [
  | inl free ↦ rw (emplace, free) (find_in-append done (e ∷ []) id)
  | inr (x, taken) ↦ rw (emplace, taken) (find_in-shadowed done e x id taken)
]

find_in-emplace_all :
    (done es : List EntityDef) (id : ℤ)
    → find_in (emplace_all done es) id ≡ or_else (find_in done id) (find_in es id)
unfolding emplace_all find_in
find_in-emplace_all done [] id = sym (or_else-none (find_in done id))
find_in-emplace_all done (e ∷ es) id =
    rw (find_in-emplace_all (emplace done e) es id, find_in-emplace, or_else_assoc)
      (ap (or_else (find_in done id)) (sym (find_in-append (e ∷ []) es id)))

not_found-cons :
    (e : EntityDef) (es : List EntityDef) (id : ℤ)
    → find_in (e ∷ es) id ≡ none
    → (e.entity_id ≢ id) × (find_in es id ≡ none)
unfolding find_in
not_found-cons e es id h = ground (arith, eqb_ℤ_iff e.entity_id id)

not_found :
    (es : List EntityDef) (id : ℤ)
    → find_in es id ≡ none
    → (x : EntityDef) → Mem x es
    → x.entity_id ≢ id
not_found [] id h x m = absurd (not-mem-nil m)
not_found (e ∷ es) id h x m =
    let (here, there) = not_found-cons e es id h in
    Or.elim ¬_prop (mem-cons.0 m) (λ q. rw q here) (not_found es id there x)

emplace-IsDistinct :
    (done : List EntityDef) (e : EntityDef) → IsDistinct done → IsDistinct (emplace done e)
unfolding emplace
emplace-IsDistinct done e h = elim (Option-cases (find_in done e.entity_id)) [
  | inl free ↦
      rw (emplace, free)
        ((Pairwise-append distinct_prop).1 (
          h,
          Pairwise-singleton _ e,
          λ a m b k.
              Or.elim ¬_prop (mem-cons.0 k) (λ q. rw q (not_found done e.entity_id free a m))
                (λ n. absurd (not-mem-nil n)),
        ))
  | inr (x, taken) ↦ rw (emplace, taken) h
]

emplace_all-IsDistinct :
    (done es : List EntityDef) → IsDistinct done → IsDistinct (emplace_all done es)
unfolding emplace_all
emplace_all-IsDistinct done [] h = h
emplace_all-IsDistinct done (e ∷ es) h =
    emplace_all-IsDistinct (emplace done e) es (emplace-IsDistinct done e h)

built_from :
    (schema : Schema) (es : List EntityDef)
    → schema.entities_by_id ≡ emplace_all [] es
    → IsDistinct schema.entities_by_id × ((id : ℤ) → find schema id ≡ find_in es id)
unfolding find or_else
built_from schema es built = (
  rw built (emplace_all-IsDistinct [] es Pairwise.nil),
  λ id. rw built (find_in-emplace_all [] es id),
)

module _ {F : Type 0} (J : JsonLib F) where
  open J use {Value, items}

  -- The entities of the model's array, each on its own.
  unfoldable pub collect : List Value → Result (List EntityDef)
  collect [] = ok []
  collect (v ∷ vs) = do e ← parse_entity J v; es ← collect vs; ok (e ∷ es)

  parse_entities-collect :
      (vs : List Value) (done : List EntityDef)
      → parse_entities J vs done ≡ (do es ← collect vs; ok (emplace_all done es))
  unfolding collect parse_entities emplace_all
  parse_entities-collect [] done = refl
  parse_entities-collect (v ∷ vs) done = elim (Result-cases (parse_entity J v)) [
    | inl (e, h) ↦ ground (arith, h, parse_entities-collect vs (emplace done e))
    | inr (x, h) ↦ ground (arith, h)
  ]

  unfoldable pub model_entities : Value → List Value
  model_entities model = items (J.index model (codes "entities"))

  schema_of-built :
      (model : Value) (schema : Schema)
      → schema_of J model ≡ ok schema
      → (es : List EntityDef) × (collect (model_entities model) ≡ ok es)
        × (schema.entities_by_id ≡ emplace_all [] es)
  unfolding schema_of model_entities
  schema_of-built model schema h =
      let vs = model_entities model in
      elim (Result-cases (collect vs)) [
        | inl (es, e) ↦ (es, e, ground (arith, parse_entities-collect vs [], e))
        | inr (x, e) ↦ absurd (ground (arith, parse_entities-collect vs [], e))
      ]

  -- Whatever the parser accepts: the map's ids are distinct, and `find` returns the first entity of
  -- the model's array that has the id, or nothing if none has it.
  pub parse_correct :
      (model_json : Bytes) (schema : Schema)
      → parse J model_json ≡ ok schema
      → (model : Value) × (es : List EntityDef) × (J.parse model_json ≡ ok model)
        × (collect (model_entities model) ≡ ok es)
        × IsDistinct schema.entities_by_id
        × ((id : ℤ) → find schema id ≡ find_in es id)
  parse_correct model_json schema h =
      let (model, parsed, h') =
        >>=-eq-ok (J.parse model_json) (schema_of J) (rw parse-schema_of at h) in
      let (es, collected, built) = schema_of-built model schema h' in
      let (distinct, found) = built_from schema es built in
      (model, es, parsed, collected, distinct, found)
