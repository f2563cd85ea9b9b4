-- ===== src/Cli/Stream/Groups.antt =====
-- What a stream of records whose entities come one after the other is written as.
use ob_dump.Base.{
  List, [], ◌∷◌, ◌++◌, true, false, ◌≤◌, Bytes, codes, take_all, length, eqb, eqb_iff, eqb_refl,
  append_assoc, append-nil, ◌≡◌, ◌≢◌, refl, ap, ◌∙◌, Bool-cases, inl, inr,
}
use ob_dump.Base.Int.{pos}
use ob_dump.Cli.Stream.{JsonStreamCtx, start_ctx, json_stream_cb, closing}

-- The context after some calls with a name and fields.
unfoldable pub feed : List (Bytes × Bytes) → JsonStreamCtx → JsonStreamCtx
feed [] ctx = ctx
feed ((name, fields) ∷ rest) ctx = feed rest (json_stream_cb name (pos 0) fields ctx).1

-- An entity's name, its first record and its other records.
pub record Group : Type 0 where
  pub name : Bytes
  pub first : Bytes
  pub others : List Bytes

-- The calls that a group makes, and those of several groups.
pub calls_of : Bytes → List Bytes → List (Bytes × Bytes)
calls_of name [] = []
calls_of name (r ∷ rs) = (name, r) ∷ calls_of name rs

pub calls : List Group → List (Bytes × Bytes)
calls [] = []
calls (g ∷ gs) = calls_of g.name (g.first ∷ g.others) ++ calls gs

-- The text of the records, of one group and of several.
pub other_records : List Bytes → Bytes
other_records [] = []
other_records (r ∷ rs) = codes ",\n" ++ codes "    " ++ r ++ other_records rs

pub group_text : Group → Bytes
group_text g =
    codes "  \"" ++ g.name ++ codes "\": [\n" ++ codes "    " ++ g.first ++ other_records g.others

pub other_groups : List Group → Bytes
other_groups [] = []
other_groups (g ∷ gs) = codes "\n  ],\n" ++ group_text g ++ other_groups gs

pub document : List Group → Bytes
document [] = codes "{}\n"
document (g ∷ gs) = codes "{\n" ++ group_text g ++ other_groups gs ++ codes "\n  ]\n}\n"

-- A name that is not empty, fits into the array, and is not the name before it.
abbrev pub Fits : Bytes → Bytes → Type 0
Fits before name = (name ≢ []) × (length name ≤ 255) × (before ≢ name)

abbrev pub AreGrouped : Bytes → List Group → Type 0
AreGrouped before [] = Unit {0}
AreGrouped before (g ∷ gs) = Fits before g.name × AreGrouped g.name gs

-- Within a group.
abbrev mid : Bytes → Bytes → JsonStreamCtx
mid out name = record {
  out = out;
  last_entity = name;
  wrote_any_entity = true;
  wrote_any_in_current_entity = true;
}

abbrev head_text : Bytes → Bytes → Bytes
head_text name r = codes "  \"" ++ name ++ codes "\": [\n" ++ codes "    " ++ r

ne→eqb : (s t : Bytes) → s ≢ t → eqb s t ≡ false
ne→eqb s t n = elim (Bool-cases (eqb s t)) [ inl e ↦ absurd (n ((eqb_iff s t).0 e)) | inr f ↦ f ]

cb-same :
    (out name r : Bytes)
    → name ≢ []
    → (json_stream_cb name (pos 0) r (mid out name)).1
      ≡ mid (out ++ (codes ",\n" ++ codes "    " ++ r)) name
unfolding json_stream_cb
cb-same out [] r h = absurd (h refl)
cb-same out (b ∷ bs) r h =
    rw (eqb_refl (b ∷ bs)) (ap (λ (o : Bytes). mid o (b ∷ bs)) (simp append_assoc))

cb-next :
    (out before name r : Bytes)
    → Fits before name
    → (json_stream_cb name (pos 0) r (mid out before)).1
      ≡ mid (out ++ (codes "\n  ],\n" ++ head_text name r)) name
unfolding json_stream_cb
cb-next out [] name r h =
    rw (take_all 255 name h.1) (ap (λ (o : Bytes). mid o name) (simp append_assoc))
cb-next out (b ∷ bs) name r h =
    rw (ne→eqb (b ∷ bs) name h.2)
      (rw (take_all 255 name h.1) (ap (λ (o : Bytes). mid o name) (simp append_assoc)))

cb-first :
    (out name r : Bytes)
    → Fits [] name
    → (json_stream_cb name (pos 0) r (start_ctx out)).1
      ≡ mid (out ++ (codes "{\n" ++ head_text name r)) name
unfolding json_stream_cb
cb-first out name r h =
    rw (take_all 255 name h.1) (ap (λ (o : Bytes). mid o name) (simp append_assoc))

feed-others :
    (out name : Bytes) (rs : List Bytes)
    → name ≢ []
    → feed (calls_of name rs) (mid out name) ≡ mid (out ++ other_records rs) name
unfolding feed calls_of other_records
feed-others out name [] h = rw append-nil refl
feed-others out name (r ∷ rs) h =
    ap (feed (calls_of name rs)) (cb-same out name r h)
    ∙ feed-others (out ++ (codes ",\n" ++ codes "    " ++ r)) name rs h
    ∙ ap (λ (o : Bytes). mid o name) (simp append_assoc)

feed-append :
    (xs ys : List (Bytes × Bytes)) (ctx : JsonStreamCtx)
    → feed (xs ++ ys) ctx ≡ feed ys (feed xs ctx)
unfolding feed
feed-append [] ys ctx = refl
feed-append ((name, fields) ∷ xs) ys ctx = feed-append xs ys _

-- A group whose first call is made from `ctx`.
feed-group :
    (g : Group) (gs : List Group) (ctx : JsonStreamCtx) (out : Bytes)
    → g.name ≢ []
    → (json_stream_cb g.name (pos 0) g.first ctx).1 ≡ mid out g.name
    → feed (calls (g ∷ gs)) ctx ≡ feed (calls gs) (mid (out ++ other_records g.others) g.name)
unfolding calls feed calls_of
feed-group g gs ctx out n h =
    feed-append (calls_of g.name (g.first ∷ g.others)) (calls gs) ctx
    ∙ ap (feed (calls gs))
        (ap (feed (calls_of g.name g.others)) h ∙ feed-others out g.name g.others n)

feed-groups :
    (before out : Bytes) (gs : List Group)
    → AreGrouped before gs
    → (last : Bytes) × (feed (calls gs) (mid out before) ≡ mid (out ++ other_groups gs) last)
unfolding feed calls other_groups group_text
feed-groups before out [] h = (before, rw append-nil refl)
feed-groups before out (g ∷ gs) h =
    let (last, e) = feed-groups g.name _ gs h.1 in
    (
      last,
      feed-group g gs (mid out before) _ h.0.0 (cb-next out before g.name g.first h.0)
          ∙ e
          ∙ ap (λ (o : Bytes). mid o last) (simp append_assoc),
    )

written :
    (out : Bytes) (gs : List Group) (text last : Bytes)
    → feed (calls gs) (start_ctx out) ≡ mid text last
    → text ++ codes "\n  ]\n}\n" ≡ out ++ document gs
    → let ctx = feed (calls gs) (start_ctx out) in
      ctx.out ++ closing ctx.wrote_any_entity ≡ out ++ document gs
unfolding closing
written out gs text last e h = rw e h

-- If the records come in groups, so that a name is not empty, has at most 255 bytes and is not that
-- of the group before, then what the callback writes, with what `run_json` writes at the end, is
-- the JSON document of the groups: an array for each, `{}` if there is none.
pub feed-document :
    (out : Bytes) (gs : List Group)
    → AreGrouped [] gs
    → let ctx = feed (calls gs) (start_ctx out) in
      ctx.out ++ closing ctx.wrote_any_entity ≡ out ++ document gs
unfolding document closing feed calls group_text other_records
feed-document out [] h = refl
feed-document out (g ∷ gs) h =
    let (last, e) = feed-groups g.name (out ++ (codes "{\n" ++ group_text g)) gs h.1 in
    written out (g ∷ gs) _ last
      (feed-group g gs (start_ctx out) _ h.0.0 (cb-first out g.name g.first h.0)
        ∙ ap (feed (calls gs)) (ap (λ (o : Bytes). mid o g.name) (simp (append_assoc, group_text)))
        ∙ e)
      (simp append_assoc)
