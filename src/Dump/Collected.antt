-- ===== src/Dump/Collected.antt =====
-- dumper.cpp: what dumpToJson has put into its result, record by record.
pub mod Whole
pub mod Succeeds
use mathlib.Core.Path.{subst}
use ob_dump.Base.{
  ℕ, List, [], ◌∷◌, Bool, true, false, Option, none, some, Option-cases, Bytes, ◌≡◌, ◌⊎◌, inl, inr,
  refl, sym, ap, ◌∙◌,
}
use ob_dump.Base.Int.{ℤ, pos}
use ob_dump.Base.Exec.{Result, ok, ok-inj, err}
use ob_dump.Base.State.{Exec, pure, lift, ◌>>=◌, >>=-eq-ok}
use ob_dump.Json.{JsonLib}
use ob_dump.Schema.{EntityDef}
use ob_dump.Schema.Parse.{Schema, find}
use ob_dump.Lmdb.{LmdbLib, ObjectRecord}
use ob_dump.Lmdb.Handles.{Handles, St, inside}
use ob_dump.Lmdb.Walk.{visit}
use ob_dump.Decode.{FlatLib, FlexLib}
use ob_dump.Dump.Groups.{append_all}
use ob_dump.Dump.{record_json, append_record, dump_record, dump_callback}

module _ {F : Type 0} (J : JsonLib F) (B : FlatLib F) (X : FlexLib F) (L : LmdbLib) (path : Bytes)
    (schema : Schema) where
  open J use {Value}

  -- The records of a store, and the objects that are made of them under their entities' names: a
  -- record of an unknown entity is skipped, and any other is read.
  pub data Collected : List ObjectRecord → List (Bytes × Value) → Handles → Handles → Type 0 where
    done : {h : Handles} → Collected [] [] h h
    skipped :
        {r : ObjectRecord} {rs : List ObjectRecord} {docs : List (Bytes × Value)} {h h' : Handles}
        → find schema (pos r.entity_id) ≡ none
        → Collected rs docs h h'
        → Collected (r ∷ rs) docs h h'
    kept :
        {r : ObjectRecord} {rs : List ObjectRecord} {docs : List (Bytes × Value)} {h m h' : Handles}
        (entity : EntityDef) (obj : Value)
        → find schema (pos r.entity_id) ≡ some entity
        → record_json J B X L path entity r h ≡ (ok obj, m)
        → Collected rs docs m h'
        → Collected (r ∷ rs) ((entity.name, obj) ∷ docs) h h'

  abbrev Kept : EntityDef → ObjectRecord → St Value → Bool → St Value → Type 0
  Kept entity r s more t =
      (obj : Value) × (m : Handles) × (record_json J B X L path entity r s.handles ≡ (ok obj, m))
      × (more ≡ true)
      × (t ≡ record { handles = m; user = append_record J s.user entity.name obj })

  dump_record-Kept :
      (entity : EntityDef) (r : ObjectRecord) (s t : St Value) (more : Bool)
      → dump_record J B X L path entity r s ≡ (ok more, t)
      → Kept entity r s more t
  unfolding dump_record
  dump_record-Kept entity r s t more h =
      let read = inside (record_json J B X L path entity r) in
      let (obj, t1, e1, k1) = >>=-eq-ok read _ s h in
      let m = (record_json J B X L path entity r s.handles).1 in
      (
        obj,
        m,
        ap (λ (x : Result Value × St Value). (x.0, m)) e1,
        sym (ok-inj (ap (λ (x : Result Bool × St Value). x.0) k1)),
        sym (ap (λ (x : Result Bool × St Value). x.1) k1)
            ∙ ap (λ (x : St Value). record x { user = append_record J x.user entity.name obj })
                (sym (ap (λ (x : Result Value × St Value). x.1) e1)),
      )

  abbrev Step : ObjectRecord → St Value → Bool → St Value → Type 0
  Step r s more t =
      ((find schema (pos r.entity_id) ≡ none) × (more ≡ true) × (t ≡ s))
      ⊎ ((entity : EntityDef) × (find schema (pos r.entity_id) ≡ some entity)
          × Kept entity r s more t)

  dump_callback-Step :
      (r : ObjectRecord) (s t : St Value) (more : Bool)
      → dump_callback J B X L path schema r s ≡ (ok more, t)
      → Step r s more t
  unfolding dump_callback
  dump_callback-Step r s t more h = elim (Option-cases (find schema (pos r.entity_id))) [
    | inl missing ↦
        (let q : pure {S = St Value} true s ≡ (ok more, t) = rw (dump_callback, missing) at h in
          inl (
            missing,
            sym (ok-inj (ap (λ (x : Result Bool × St Value). x.0) q)),
            sym (ap (λ (x : Result Bool × St Value). x.1) q),
          ))
    | inr (entity, known) ↦
        inr (entity, known, dump_record-Kept entity r s t more (rw (dump_callback, known) at h))
  ]

  Step-more : (r : ObjectRecord) (s t : St Value) (more : Bool) → Step r s more t → more ≡ true
  Step-more r s t more (inl (_, on, _)) = on
  Step-more r s t more (inr (entity, _, (obj, m, _, on, _))) = on

  -- What a run of the walk's callback leaves behind.
  abbrev pub Run : List ObjectRecord → St Value → St Value → Type 0
  Run rs s t =
      (docs : List (Bytes × Value)) × Collected rs docs s.handles t.handles
      × (t.user ≡ append_all J s.user docs)

  Run-Step :
      (r : ObjectRecord) (rs : List ObjectRecord) (s u t : St Value) (more : Bool)
      → Step r s more u
      → Run rs u t
      → Run (r ∷ rs) s t
  unfolding append_all
  Run-Step r rs s u t more (inl (missing, _, same)) run =
      let (docs, c, e) = subst (λ (x : St Value). Run rs x t) same run in
      (docs, skipped missing c, e)
  Run-Step r rs s u t more (inr (entity, known, (obj, m, read, _, same))) run =
      let (docs, c, e) = subst (λ (x : St Value). Run rs x t) same run in
      (_, kept entity obj known read c, e)

  -- The walk's callback never stops, so a walk that returns has seen every record.
  pub visit-Run :
      (rs : List ObjectRecord) (end c : ℤ) (s t : St Value)
      → visit rs end (dump_callback J B X L path schema) s ≡ (ok c, t)
      → Run rs s t
  unfolding visit append_all
  visit-Run [] end c s t h =
      subst (λ (x : St Value). Run [] s x) (ap (λ (x : Result ℤ × St Value). x.1) h)
        ([], done, refl)
  visit-Run (r ∷ rs) end c s t h =
      let (more, u, e, k) = >>=-eq-ok (dump_callback J B X L path schema r) _ s h in
      let step = dump_callback-Step r s u more e in
      let on = Step-more r s u more step in
      Run-Step r rs s u t more step (visit-Run rs end c u t (rw on at k))
