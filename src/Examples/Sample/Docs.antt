-- ===== src/Examples/Sample/Docs.antt =====
-- JSON values as data, with the laws that the manual states.
use ob_dump.Base.{
  ℕ, List, [], ◌∷◌, ◌++◌, Bool, true, false, Option, none, some, Bytes, codes, eqb, eqb_refl,
  eqb_iff, if◌then◌else◌, ◌≡◌, ◌≢◌, refl, ap, arith, Bool-cases, inl, inr,
}
use ob_dump.Base.Int.{ℤ}
use ob_dump.Base.Exec.{Result, ok, err, unknown}
use ob_dump.Json.{Number, JsonLib, ArrayLaws, ObjectLaws}

-- JSON values; the items of an array have no key.
mutual
  pub data Doc : Type 0 where
    null : Doc
    boolean : Bool → Doc
    number : Number ℕ → Doc
    text : Bytes → Doc
    array object : Docs → Doc

  pub data Docs : Type 0 where
    end : Docs
    item : Bytes → Doc → Docs → Docs

-- The items in their order; the value at a key, null if there is none; a key assigned.
items_of : Docs → List Doc
items_of end = []
items_of (item k v ds) = v ∷ items_of ds

snoc : Docs → Doc → Docs
snoc end x = item [] x end
snoc (item k v ds) x = item k v (snoc ds x)

lookup : Docs → Bytes → Option Doc
lookup end j = none
lookup (item k v ds) j = if eqb k j then some v else lookup ds j

assign : Docs → Bytes → Doc → Docs
assign end j x = item j x end
assign (item k v ds) j x =
    let rest = assign ds j x in if eqb k j then item k x ds else item k v rest

abbrev members : Doc → Docs
members (object ds) = ds
members _ = end

abbrev elements : Doc → Docs
elements (array ds) = ds
elements _ = end

abbrev found : Option Doc → Doc
found none = null
found (some v) = v

abbrev is_some : Option Doc → Bool
is_some none = false
is_some (some v) = true

abbrev checked_found : Option Doc → Result Doc
checked_found none = err unknown
checked_found (some v) = ok v

abbrev text_of : Doc → Result Bytes
text_of (text s) = ok s
text_of _ = err unknown

abbrev int_of : Doc → Result ℤ
int_of (number (Number.int i)) = ok i
int_of _ = err unknown

abbrev is_array_doc : Doc → Bool
is_array_doc (array ds) = true
is_array_doc _ = false

-- Values are read from no text but one: whatever is parsed is `sample`.
unfoldable pub doc_json : Doc → JsonLib ℕ
unfolding items_of snoc lookup assign
doc_json sample = record {
  Value = Doc;
  parse = λ _. ok sample;
  dump = λ _. ok (codes "{}");
  dump_indent = λ _ _. ok (codes "{}");
  contains = λ v k. is_some (lookup (members v) k);
  at = λ v k. checked_found (lookup (members v) k);
  is_array = is_array_doc;
  items = λ v. items_of (elements v);
  get_string = text_of;
  get_int = int_of;
  null = null;
  boolean = boolean;
  number = number;
  string = text;
  array = array end;
  object = object end;
  push_back = λ v x. array (snoc (elements v) x);
  set = λ v k x. object (assign (members v) k x);
  index = λ v k. found (lookup (members v) k);
}

items_of-snoc : (ds : Docs) (x : Doc) → items_of (snoc ds x) ≡ items_of ds ++ x ∷ []
unfolding items_of snoc
items_of-snoc end x = refl
items_of-snoc (item k v ds) x = ap (λ (l : List Doc). v ∷ l) (items_of-snoc ds x)

lookup-assign_self : (ds : Docs) (k : Bytes) (x : Doc) → lookup (assign ds k x) k ≡ some x
unfolding lookup assign
lookup-assign_self end k x = rw (eqb_refl k) refl
lookup-assign_self (item j v ds) k x = elim (Bool-cases (eqb j k)) [
  | inl same ↦ rw (same, lookup, same) refl
  | inr other ↦ rw (other, lookup, other) (lookup-assign_self ds k x)
]

ne→eqb : (s t : Bytes) → s ≢ t → eqb s t ≡ false
ne→eqb s t n = elim (Bool-cases (eqb s t)) [ inl e ↦ absurd (n ((eqb_iff s t).0 e)) | inr f ↦ f ]

lookup-assign_ne :
    (ds : Docs) (k j : Bytes) (x : Doc) → k ≢ j → lookup (assign ds k x) j ≡ lookup ds j
unfolding lookup assign
lookup-assign_ne end k j x n = rw (ne→eqb k j n) refl
lookup-assign_ne (item i v ds) k j x n = elim (Bool-cases (eqb i k)) [
  | inl same ↦
      (let f : eqb i j ≡ false = rw ((eqb_iff i k).0 same) (ne→eqb k j n) in
        ground (arith, same, f))
  | inr other ↦ ground (arith, other, lookup-assign_ne ds k j x n)
]

pub doc_ArrayLaws : (sample : Doc) → ArrayLaws (doc_json sample)
unfolding doc_json
doc_ArrayLaws sample = record {
  is_array-array = refl;
  is_array-push_back = λ a v h. refl;
  items-array = refl;
  items-push_back = λ a v h. items_of-snoc (elements a) v;
}

pub doc_ObjectLaws : (sample : Doc) → ObjectLaws (doc_json sample)
unfolding doc_json
doc_ObjectLaws sample = record {
  index-object = λ k. refl;
  index-set_self = λ o k v. ap found (lookup-assign_self (members o) k v);
  index-set_ne = λ o k j v n. ap found (lookup-assign_ne (members o) k j v n);
  is_array-null = refl;
}
