-- ===== src/Schema/Parse/Reads.antt =====
-- `Schema::parse`: where each field of a schema comes from in the model's JSON.
use mathlib.Core.Path.{subst}
use ob_dump.Base.{
  List, [], ◌∷◌, ◌++◌, Bool, true, false, Bytes, codes, ◌≡◌, ◌⊎◌, inl, inr, refl, sym, ◌∙◌, Each,
  end, item, if◌then◌else◌, append_assoc, append-nil,
}
use ob_dump.Base.Int.{ℤ}
use ob_dump.Base.Exec.{Result, ok, ok-inj, ◌>>=◌, >>=-eq-ok}
use ob_dump.Json.{JsonLib}
use ob_dump.Schema.{PropertyDef, RelationDef, EntityDef, to_property_type, external_unknown}
use ob_dump.Schema.Ids.{parse_leading_id}
use ob_dump.Schema.Parse.{
  Schema, find, find_in, has_unsigned_flag, id_at, string_at, int_at, flags_of, external_of,
  parse_property, parse_relation, parse_properties, parse_relations, relations_of, parse_entity,
  parse,
}
use ob_dump.Schema.Parse.Map.{collect, model_entities, parse_correct}

module _ {F : Type 0} (J : JsonLib F) where
  open J use {Value}

  -- Under a key stands a text, an id in front of a text, or an int.
  abbrev pub HasText : Value → Bytes → Bytes → Type 0
  HasText v key s = (field : Value) × (J.at v key ≡ ok field) × (J.get_string field ≡ ok s)

  abbrev pub HasId : Value → Bytes → ℤ → Type 0
  HasId v key id = (text : Bytes) × HasText v key text × (parse_leading_id text ≡ ok id)

  abbrev pub HasInt : Value → Bytes → ℤ → Type 0
  HasInt v key n = (field : Value) × (J.at v key ≡ ok field) × (J.get_int field ≡ ok n)

  abbrev pub ReadsRelation : Value → RelationDef → Type 0
  ReadsRelation v r =
      HasId v (codes "id") r.id
      × HasText v (codes "name") r.name
      × HasId v (codes "targetId") r.target_entity_id

  -- A property is unsigned if its flags say so, and has an external type if it has the key.
  abbrev pub ReadsSign : Value → Bool → Type 0
  ReadsSign v b =
      ((J.contains v (codes "flags") ≡ false) × (b ≡ false))
      ⊎ ((flags : ℤ) × HasInt v (codes "flags") flags × (b ≡ has_unsigned_flag flags))

  abbrev pub ReadsExternal : Value → ℤ → Type 0
  ReadsExternal v code =
      ((J.contains v (codes "externalType") ≡ false) × (code ≡ external_unknown))
      ⊎ HasInt v (codes "externalType") code

  abbrev pub ReadsProperty : Value → PropertyDef → Type 0
  ReadsProperty v p =
      HasId v (codes "id") p.id
      × HasText v (codes "name") p.name
      × ((raw : ℤ) × HasInt v (codes "type") raw × (p.type ≡ to_property_type raw))
      × ReadsSign v p.is_unsigned
      × ReadsExternal v p.external_type

  -- The relations are those of the key's array, or none without the key.
  abbrev pub ReadsRelations : Value → List RelationDef → Type 0
  ReadsRelations v rs =
      ((J.contains v (codes "relations") ≡ false) × (rs ≡ []))
      ⊎ ((array : Value) × (J.at v (codes "relations") ≡ ok array)
          × Each ReadsRelation (J.items array) rs)

  abbrev pub ReadsEntity : Value → EntityDef → Type 0
  ReadsEntity v e =
      HasId v (codes "id") e.entity_id
      × HasText v (codes "name") e.name
      × ((array : Value) × (J.at v (codes "properties") ≡ ok array)
          × Each ReadsProperty (J.items array) e.properties)
      × ReadsRelations v e.relations

  string_at-HasText : (v : Value) (key s : Bytes) → string_at J v key ≡ ok s → HasText v key s
  unfolding string_at
  string_at-HasText v key s h = >>=-eq-ok (J.at v key) _ h

  int_at-HasInt : (v : Value) (key : Bytes) (n : ℤ) → int_at J v key ≡ ok n → HasInt v key n
  unfolding int_at
  int_at-HasInt v key n h = >>=-eq-ok (J.at v key) _ h

  id_at-HasId : (v : Value) (key : Bytes) (id : ℤ) → id_at J v key ≡ ok id → HasId v key id
  unfolding id_at
  id_at-HasId v key id h =
      let (field, e, k) = >>=-eq-ok (J.at v key) _ h in
      let (text, e', k') = >>=-eq-ok (J.get_string field) _ k in (text, (field, e, e'), k')

  parse_relation-ReadsRelation :
      (v : Value) (r : RelationDef) → parse_relation J v ≡ ok r → ReadsRelation v r
  unfolding parse_relation
  parse_relation-ReadsRelation v r h =
      let (id, e1, k1) = >>=-eq-ok (id_at J v (codes "id")) _ h in
      let (name, e2, k2) = >>=-eq-ok (string_at J v (codes "name")) _ k1 in
      let (target, e3, k3) = >>=-eq-ok (id_at J v (codes "targetId")) _ k2 in
      subst (ReadsRelation v) (ok-inj k3) (
        id_at-HasId v (codes "id") id e1,
        string_at-HasText v (codes "name") name e2,
        id_at-HasId v (codes "targetId") target e3,
      )

  flags_of-ReadsSign : (v : Value) (b : Bool) → flags_of J v ≡ ok b → ReadsSign v b
  unfolding flags_of
  flags_of-ReadsSign v b h = by_key (J.contains v (codes "flags")) refl h
    where
      by_key :
          (c : Bool)
          → J.contains v (codes "flags") ≡ c
          → (if c
              then (do flags ← int_at J v (codes "flags"); ok (has_unsigned_flag flags))
              else ok false)
            ≡ ok b
          → ReadsSign v b
      by_key true e k =
          let (flags, e', k') = >>=-eq-ok (int_at J v (codes "flags")) _ k in
          inr (flags, int_at-HasInt v (codes "flags") flags e', sym (ok-inj k'))
      by_key false e k = inl (e, sym (ok-inj k))

  external_of-ReadsExternal :
      (v : Value) (code : ℤ) → external_of J v ≡ ok code → ReadsExternal v code
  unfolding external_of
  external_of-ReadsExternal v code h = by_key (J.contains v (codes "externalType")) refl h
    where
      by_key :
          (c : Bool)
          → J.contains v (codes "externalType") ≡ c
          → (if c then int_at J v (codes "externalType") else ok external_unknown) ≡ ok code
          → ReadsExternal v code
      by_key true e k = inr (int_at-HasInt v (codes "externalType") code k)
      by_key false e k = inl (e, sym (ok-inj k))

  parse_property-ReadsProperty :
      (v : Value) (p : PropertyDef) → parse_property J v ≡ ok p → ReadsProperty v p
  unfolding parse_property
  parse_property-ReadsProperty v p h =
      let (id, e1, k1) = >>=-eq-ok (id_at J v (codes "id")) _ h in
      let (name, e2, k2) = >>=-eq-ok (string_at J v (codes "name")) _ k1 in
      let (raw, e3, k3) = >>=-eq-ok (int_at J v (codes "type")) _ k2 in
      let (sign, e4, k4) = >>=-eq-ok (flags_of J v) _ k3 in
      let (code, e5, k5) = >>=-eq-ok (external_of J v) _ k4 in
      subst (ReadsProperty v) (ok-inj k5) (
        id_at-HasId v (codes "id") id e1,
        string_at-HasText v (codes "name") name e2,
        (raw, int_at-HasInt v (codes "type") raw e3, refl),
        flags_of-ReadsSign v sign e4,
        external_of-ReadsExternal v code e5,
      )

  -- A loop that appends what it reads of each item.
  Each-read :
      {A : Type 0} (R : Value → A → Type 0) (f : Value → Result A)
      (go : List Value → List A → Result (List A))
      → ((v : Value) (x : A) → f v ≡ ok x → R v x)
      → ((done : List A) → go [] done ≡ ok done)
      → ((v : Value) (vs : List Value) (done : List A)
          → go (v ∷ vs) done ≡ (do x ← f v; go vs (done ++ x ∷ [])))
      → (vs : List Value) (done out : List A) → go vs done ≡ ok out
      → (xs : List A) × Each R vs xs × (out ≡ done ++ xs)
  Each-read R f go reads stop next [] done out h =
      ([], end, ok-inj (sym h ∙ stop done) ∙ sym (append-nil done))
  Each-read R f go reads stop next (v ∷ vs) done out h =
      let (x, e, k) = >>=-eq-ok (f v) _ (sym (next v vs done) ∙ h) in
      let (xs, each, same) = Each-read R f go reads stop next vs (done ++ x ∷ []) out k in
      (x ∷ xs, item (reads v x e) each, same ∙ append_assoc done (x ∷ []) xs)

  Each-from_empty :
      {A : Type 0} (R : Value → A → Type 0) (vs : List Value) (out : List A)
      → ((xs : List A) × Each R vs xs × (out ≡ xs))
      → Each R vs out
  Each-from_empty R vs out (xs, each, same) = subst (Each R vs) (sym same) each

  parse_properties-Each :
      (vs : List Value) (out : List PropertyDef)
      → parse_properties J vs [] ≡ ok out
      → Each ReadsProperty vs out
  unfolding parse_properties
  parse_properties-Each vs out h = Each-from_empty ReadsProperty vs out (
      Each-read ReadsProperty (parse_property J) (parse_properties J) parse_property-ReadsProperty
        (λ done. refl) (λ v vs done. refl) vs [] out h)

  parse_relations-Each :
      (vs : List Value) (out : List RelationDef)
      → parse_relations J vs [] ≡ ok out
      → Each ReadsRelation vs out
  unfolding parse_relations
  parse_relations-Each vs out h = Each-from_empty ReadsRelation vs out (
      Each-read ReadsRelation (parse_relation J) (parse_relations J) parse_relation-ReadsRelation
        (λ done. refl) (λ v vs done. refl) vs [] out h)

  relations_of-ReadsRelations :
      (v : Value) (out : List RelationDef) → relations_of J v ≡ ok out → ReadsRelations v out
  unfolding relations_of
  relations_of-ReadsRelations v out h = by_key (J.contains v (codes "relations")) refl h
    where
      by_key :
          (c : Bool)
          → J.contains v (codes "relations") ≡ c
          → (if c
              then (do rs ← J.at v (codes "relations"); parse_relations J (J.items rs) [])
              else ok [])
            ≡ ok out
          → ReadsRelations v out
      by_key true e k =
          let (rs, e', k') = >>=-eq-ok (J.at v (codes "relations")) _ k in
          inr (rs, e', parse_relations-Each (J.items rs) out k')
      by_key false e k = inl (e, sym (ok-inj k))

  parse_entity-ReadsEntity : (v : Value) (x : EntityDef) → parse_entity J v ≡ ok x → ReadsEntity v x
  unfolding parse_entity
  parse_entity-ReadsEntity v x h =
      let (id, e1, k1) = >>=-eq-ok (id_at J v (codes "id")) _ h in
      let (name, e2, k2) = >>=-eq-ok (string_at J v (codes "name")) _ k1 in
      let (ps, e3, k3) = >>=-eq-ok (J.at v (codes "properties")) _ k2 in
      let (props, e4, k4) = >>=-eq-ok (parse_properties J (J.items ps) []) _ k3 in
      let (rels, e5, k5) = >>=-eq-ok (relations_of J v) _ k4 in
      subst (ReadsEntity v) (ok-inj k5) (
        id_at-HasId v (codes "id") id e1,
        string_at-HasText v (codes "name") name e2,
        (ps, e3, parse_properties-Each (J.items ps) props e4),
        relations_of-ReadsRelations v rels e5,
      )

  collect-Each :
      (vs : List Value) (es : List EntityDef) → collect J vs ≡ ok es → Each ReadsEntity vs es
  unfolding collect
  collect-Each [] es h = subst (Each ReadsEntity []) (ok-inj h) end
  collect-Each (v ∷ vs) es h =
      let (e, e1, k1) = >>=-eq-ok (parse_entity J v) _ h in
      let (rest, e2, k2) = >>=-eq-ok (collect J vs) _ k1 in
      subst (Each ReadsEntity (v ∷ vs)) (ok-inj k2)
        (item (parse_entity-ReadsEntity v e e1) (collect-Each vs rest e2))

  -- A schema that was parsed is read from the items of the model's array "entities", one entity of
  -- each in their order, of which `find` returns the first with an id. An entity has the id and name
  -- of its item, a property of each item of its array "properties", and a relation of each item of
  -- its array "relations", or none without that key. A property's and a relation's fields are those
  -- of their items: ids in front of the texts under "id" and "targetId", the type's code, the flags'
  -- unsigned bit, and the external type, the last two if they are there.
  pub parse-ReadsEntity :
      (model_json : Bytes) (schema : Schema)
      → parse J model_json ≡ ok schema
      → (model : Value) × (es : List EntityDef) × (J.parse model_json ≡ ok model)
        × Each ReadsEntity (J.items (J.index model (codes "entities"))) es
        × ((id : ℤ) → find schema id ≡ find_in es id)
  unfolding model_entities
  parse-ReadsEntity model_json schema h =
      let (model, es, parsed, collected, _, found) = parse_correct J model_json schema h in
      (model, es, parsed, collect-Each _ es collected, found)
