-- ===== src/Dump/Delivered.antt =====
-- What a streaming client that never stops is given, record by record.
pub mod Whole
use mathlib.Core.Path.{subst}
use ob_dump.Base.{
  ℕ, List, [], ◌∷◌, Bool, true, false, Option, none, some, Option-cases, Bytes, ◌≡◌, ◌⊎◌, inl, inr,
  refl, sym, ap, ◌∙◌, if◌then◌else◌,
}
use ob_dump.Base.Int.{ℤ, pos}
use ob_dump.Base.Exec.{Result, ok, ok-inj, err, Result-cases}
use ob_dump.Base.State.{Exec, pure, lift, ◌>>=◌, >>=-eq-ok}
use ob_dump.Json.{JsonLib}
use ob_dump.Schema.{EntityDef}
use ob_dump.Schema.Parse.{Schema, find}
use ob_dump.Lmdb.{LmdbLib, ObjectRecord}
use ob_dump.Lmdb.Handles.{Handles, St, inside}
use ob_dump.Lmdb.Walk.{visit}
use ob_dump.Decode.{FlatLib, FlexLib}
use ob_dump.Dump.{RecordCallback, call, stream_json, stream_record, stream_callback}

-- What one call of the client is given.
pub record Delivery : Type 0 where
  pub name : Bytes
  pub object_id : ℕ
  pub fields : Bytes

module _ {F : Type 0} (J : JsonLib F) (B : FlatLib F) (X : FlexLib F) (L : LmdbLib) (path : Bytes)
    (schema : Schema) where
  open J use {Value}

  -- The records of a store and what is delivered of them, with the LMDB objects that are open
  -- before and behind: a record of an unknown entity is skipped, and any other is read and written.
  pub data Delivered : List ObjectRecord → List Delivery → Handles → Handles → Type 0 where
    done : {h : Handles} → Delivered [] [] h h
    skipped :
        {r : ObjectRecord} {rs : List ObjectRecord} {ds : List Delivery} {h h' : Handles}
        → find schema (pos r.entity_id) ≡ none
        → Delivered rs ds h h'
        → Delivered (r ∷ rs) ds h h'
    given :
        {r : ObjectRecord} {rs : List ObjectRecord} {ds : List Delivery} {h m h' : Handles}
        (entity : EntityDef) (obj : Value) (fields : Bytes)
        → find schema (pos r.entity_id) ≡ some entity
        → stream_json J B X L path entity r h ≡ (ok obj, m)
        → J.dump obj ≡ ok fields
        → Delivered rs ds m h'
        → Delivered
            (r ∷ rs)
            (record { name = entity.name; object_id = r.object_id; fields = fields } ∷ ds)
            h
            h'

  module _ {U : Type 0} (callback : RecordCallback U) where
    -- The user's data after some deliveries.
    unfoldable pub consume : List Delivery → U → U
    consume [] u = u
    consume (d ∷ ds) u = consume ds (callback d.name d.object_id d.fields u).1

    abbrev Given : EntityDef → ObjectRecord → St U → Bool → St U → Type 0
    Given entity r s more t =
        (obj : Value) × (fields : Bytes) × (m : Handles) × (stream_json J B X L path entity r
            s.handles
          ≡ (ok obj, m))
        × (J.dump obj ≡ ok fields)
        × (more ≡ (callback entity.name r.object_id fields s.user).0)
        × (t ≡ record { handles = m; user = (callback entity.name r.object_id fields s.user).1 })

    stream_record-Given :
        (entity : EntityDef) (r : ObjectRecord) (s t : St U) (more : Bool)
        → stream_record J B X L callback path entity r s ≡ (ok more, t)
        → Given entity r s more t
    unfolding stream_record
    stream_record-Given entity r s t more h =
        let read = inside (stream_json J B X L path entity r) in
        let (obj, t1, e1, k1) = >>=-eq-ok read _ s h in
        let (fields, t2, e2, k2) = >>=-eq-ok (lift {S = St U} (J.dump obj)) _ t1 k1 in
        let m = (stream_json J B X L path entity r s.handles).1 in
        let p : t2 ≡ record s { handles = m } =
          sym (ap (λ (x : Result Bytes × St U). x.1) e2)
          ∙ sym (ap (λ (x : Result Value × St U). x.1) e1) in
        let q =
          subst (λ (x : St U). call callback entity.name r.object_id fields x ≡ (ok more, t)) p
            k2 in
        (
          obj,
          fields,
          m,
          ap (λ (x : Result Value × St U). (x.0, m)) e1,
          ap (λ (x : Result Bytes × St U). x.0) e2,
          sym (ok-inj (ap (λ (x : Result Bool × St U). x.0) q)),
          sym (ap (λ (x : Result Bool × St U). x.1) q),
        )

    abbrev Step : ObjectRecord → St U → Bool → St U → Type 0
    Step r s more t =
        ((find schema (pos r.entity_id) ≡ none) × (more ≡ true) × (t ≡ s))
        ⊎ ((entity : EntityDef) × (find schema (pos r.entity_id) ≡ some entity)
            × Given entity r s more t)

    stream_callback-Step :
        (r : ObjectRecord) (s t : St U) (more : Bool)
        → stream_callback J B X L callback path schema r s ≡ (ok more, t)
        → Step r s more t
    unfolding stream_callback
    stream_callback-Step r s t more h = elim (Option-cases (find schema (pos r.entity_id))) [
      | inl missing ↦
          (let q : pure {S = St U} true s ≡ (ok more, t) = rw (stream_callback, missing) at h in
            inl (
              missing,
              sym (ok-inj (ap (λ (x : Result Bool × St U). x.0) q)),
              sym (ap (λ (x : Result Bool × St U). x.1) q),
            ))
      | inr (entity, known) ↦
          inr (
            entity,
            known,
            stream_record-Given entity r s t more (rw (stream_callback, known) at h),
          )
    ]

    -- What a run of the walk's callback leaves behind.
    abbrev pub Run : List ObjectRecord → St U → St U → Type 0
    Run rs s t =
        (ds : List Delivery) × Delivered rs ds s.handles t.handles × (t.user ≡ consume ds s.user)

    Run-skipped :
        (r : ObjectRecord) (rs : List ObjectRecord) (s u t : St U)
        → find schema (pos r.entity_id) ≡ none
        → u ≡ s
        → Run rs u t
        → Run (r ∷ rs) s t
    Run-skipped r rs s u t missing same run =
        let (ds, d, e) = subst (λ (x : St U). Run rs x t) same run in (ds, skipped missing d, e)

    Run-Given :
        (entity : EntityDef) (r : ObjectRecord) (rs : List ObjectRecord) (s u t : St U)
        (more : Bool)
        → find schema (pos r.entity_id) ≡ some entity
        → Given entity r s more u
        → Run rs u t
        → Run (r ∷ rs) s t
    unfolding consume
    Run-Given entity r rs s u t more known (obj, fields, m, read, dumped, _, same) run =
        let (ds, d, e) = subst (λ (x : St U). Run rs x t) same run in
        (_, given entity obj fields known read dumped d, e)

    abbrev GoesOn : Type 0
    GoesOn = (name : Bytes) (id : ℕ) (fields : Bytes) (u : U) → (callback name id fields u).0 ≡ true

    Step-more :
        GoesOn → (r : ObjectRecord) (s u : St U) (more : Bool) → Step r s more u → more ≡ true
    Step-more goes_on r s u more (inl (_, on, _)) = on
    Step-more goes_on r s u more (inr (entity, _, (_, fields, _, _, _, on, _))) =
        on ∙ goes_on entity.name r.object_id fields s.user

    Run-Step :
        (r : ObjectRecord) (rs : List ObjectRecord) (s u t : St U) (more : Bool)
        → Step r s more u
        → Run rs u t
        → Run (r ∷ rs) s t
    Run-Step r rs s u t more (inl (missing, _, same)) run = Run-skipped r rs s u t missing same run
    Run-Step r rs s u t more (inr (entity, known, g)) run =
        Run-Given entity r rs s u t more known g run

    -- A walk with a client that never stops: it has been given what is delivered of the records, in
    -- their order, and what it has made of that is what it holds at the end.
    pub visit-Run :
        ((name : Bytes) (id : ℕ) (fields : Bytes) (u : U) → (callback name id fields u).0 ≡ true)
        → (rs : List ObjectRecord) (end c : ℤ) (s t : St U)
        → visit rs end (stream_callback J B X L callback path schema) s ≡ (ok c, t)
        → Run rs s t
    unfolding visit consume
    visit-Run goes_on [] end c s t h =
        subst (λ (x : St U). Run [] s x) (ap (λ (x : Result ℤ × St U). x.1) h) ([], done, refl)
    visit-Run goes_on (r ∷ rs) end c s t h =
        let (more, u, e, k) = >>=-eq-ok (stream_callback J B X L callback path schema r) _ s h in
        let step = stream_callback-Step r s u more e in
        let on = Step-more goes_on r s u more step in
        Run-Step r rs s u t more step (visit-Run goes_on rs end c u t (rw on at k))

    -- Such a walk ends with the code that the cursor ends with.
    pub visit-end :
        ((name : Bytes) (id : ℕ) (fields : Bytes) (u : U) → (callback name id fields u).0 ≡ true)
        → (rs : List ObjectRecord) (end c : ℤ) (s t : St U)
        → visit rs end (stream_callback J B X L callback path schema) s ≡ (ok c, t)
        → end ≡ c
    unfolding visit
    visit-end goes_on [] end c s t h = ok-inj (ap (λ (x : Result ℤ × St U). x.0) h)
    visit-end goes_on (r ∷ rs) end c s t h =
        let (more, u, e, k) = >>=-eq-ok (stream_callback J B X L callback path schema r) _ s h in
        let on = Step-more goes_on r s u more (stream_callback-Step r s u more e) in
        visit-end goes_on rs end c u t (rw on at k)
