-- ===== src/Json.antt =====
-- nlohmann/json, which the sources only call: a parameter of every definition that uses it, with
-- the documented behaviour of its values as named laws.
use ob_dump.Base.{Bytes, ℕ, List, [], ◌∷◌, ◌++◌, Bool, true, false, ◌≡◌, ◌≢◌}
use ob_dump.Base.Int.{ℤ}
use ob_dump.Base.Exec.{Result}

-- What a JSON number is made from: an integer of any C type, a `float` or a `double`.
pub data Number (F : Type 0) : Type 0 where
  int : ℤ → Number F
  float32 float64 : F → Number F

pub record JsonLib (F : Type 0) : Type 1 where
  pub Value : Type 0
  -- json::parse, which throws json::parse_error on malformed text, and json::out_of_range on a
  -- number that no double holds; dump(2) and dump(), which throw on text that is
  -- not UTF-8
  pub parse : Bytes → Result Value
  pub dump : Value → Result Bytes
  pub dump_indent : ℕ → Value → Result Bytes
  -- contains, at (throws), is_array, the elements that a range-for visits, get<…> (throws)
  pub contains : Value → Bytes → Bool
  pub at : Value → Bytes → Result Value
  pub is_array : Value → Bool
  pub items : Value → List Value
  pub get_string : Value → Result Bytes
  pub get_int : Value → Result ℤ
  -- constructors
  pub null : Value
  pub boolean : Bool → Value
  pub number : Number F → Value
  pub string : Bytes → Value
  pub array : Value
  pub object : Value
  -- a.push_back(v), o[k] = v, o[k]
  pub push_back : Value → Value → Value
  pub set : Value → Bytes → Value → Value
  pub index : Value → Bytes → Value

-- What the manual says of arrays.
pub record ArrayLaws {F : Type 0} (J : JsonLib F) : Type 0 where
  pub is_array-array : J.is_array J.array ≡ true
  pub is_array-push_back :
      (a v : J.Value) → J.is_array a ≡ true → J.is_array (J.push_back a v) ≡ true
  pub items-array : J.items J.array ≡ []
  pub items-push_back :
      (a v : J.Value) → J.is_array a ≡ true → J.items (J.push_back a v) ≡ J.items a ++ v ∷ []

-- What the manual says of objects: a key that was assigned holds what was assigned last, any other
-- key is as before, and `o[k]` of a missing key is null.
pub record ObjectLaws {F : Type 0} (J : JsonLib F) : Type 0 where
  pub index-object : (k : Bytes) → J.index J.object k ≡ J.null
  pub index-set_self : (o : J.Value) (k : Bytes) (v : J.Value) → J.index (J.set o k v) k ≡ v
  pub index-set_ne :
      (o : J.Value) (k j : Bytes) (v : J.Value) → k ≢ j → J.index (J.set o k v) j ≡ J.index o j
  pub is_array-null : J.is_array J.null ≡ false
