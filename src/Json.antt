-- ===== src/Json.antt =====
-- The JSON library `nlohmann::json` as the node uses it: builders of the values that the code writes
-- out, and the library's own operations, which are an argument of the definitions that call them.
use lib_stereo_camera.Common.{
  ℕ, ◌^◌, ◌<◌, ℤ, pos, negsuc, String, List, [], ◌∷◌, Bool, true, false, Option, none, some, ◌≡◌,
  ◌≢◌, sym, ◌∙◌, arith, lookup, string_discrete, ite, ap,
}
use lib_stereo_camera.Types.{DataType, data_type_to_channel}
use lib_stereo_camera.Client.{
  Json, Elements, Members, null, integer, float, boolean, string, array, object, end, element,
  no_member, member,
}

-- `nlohmann::json::array()` and its `push_back`s; an object by assignments to new keys.
unfoldable pub elements_of : {R : Type 0} → List (Json R) → Elements R
elements_of [] = end
elements_of (j ∷ js) = element j (elements_of js)

unfoldable pub members_of : {R : Type 0} → List (String × Json R) → Members R
members_of [] = no_member
members_of ((k, j) ∷ ms) = member k j (members_of ms)

abbrev pub natural : {R : Type 0} → ℕ → Json R
natural n = integer (pos n)

-- The operations. Where one may throw, none is the throw.
pub record JsonOps (R : Type 0) : Type 0 where
  -- `json::parse`
  pub parse : String → Option (Json R)
  -- `j.contains(key)`
  pub contains : String → Json R → Bool
  -- `j.at(key)`, and `j[key]` after a `contains`
  pub at : String → Json R → Option (Json R)
  -- `for (auto& item : j)`
  pub items : Json R → List (Json R)
  -- `for (auto& [key, val] : j.items())`, of an object
  pub entries : Json R → List (String × Json R)
  -- `j.is_object()`
  pub is_object : Json R → Bool
  -- `j.value(key, text)`
  pub value_text : String → String → Json R → Option String
  -- `j.value(key, number)` of an `int`
  pub value_int : String → ℤ → Json R → Option ℤ
  -- `j.value(key, (int64_t)0)` kept as its 64 bits
  pub value_time : String → Json R → Option ℕ
  -- `get<T>()`
  pub get_text : Json R → Option String
  pub get_bool : Json R → Option Bool
  pub get_int : Json R → Option ℤ
  pub get_real : Json R → Option R
  pub get_type : Json R → DataType
  pub is_number_integer : Json R → Bool
  pub is_number_float : Json R → Bool
  pub is_string : Json R → Bool

-- The integers of an `int`.
abbrev pub FitsInt : ℤ → Type 0
FitsInt (pos n) = n < 2 ^ 31
FitsInt (negsuc n) = n < 2 ^ 31

-- What the library documents of them.
pub record IsJson {R : Type 0} (lib : JsonOps R) : Type 0 where
  pub at_first :
      (k : String) (j : Json R) (ms : Members R) → lib.at k (object (member k j ms)) ≡ some j
  pub at_other :
      (k i : String) (j : Json R) (ms : Members R)
      → k ≢ i
      → lib.at k (object (member i j ms)) ≡ lib.at k (object ms)
  pub items_array : (js : List (Json R)) → lib.items (array (elements_of js)) ≡ js
  pub get_text_string : (s : String) → lib.get_text (string s) ≡ some s
  pub get_bool_boolean : (b : Bool) → lib.get_bool (boolean b) ≡ some b
  pub get_int_integer : (n : ℤ) → FitsInt n → lib.get_int (integer n) ≡ some n
  pub get_real_float : (x : R) → lib.get_real (float x) ≡ some x
  pub get_type_string : (t : DataType) → lib.get_type (string (data_type_to_channel t)) ≡ t
  pub integer_kind : (n : ℤ) → lib.is_number_integer (integer n) ≡ true
  pub float_kind :
      (x : R) → (lib.is_number_integer (float x) ≡ false) × (lib.is_number_float (float x) ≡ true)
  pub string_kind :
      (s : String)
      → (lib.is_number_integer (string s) ≡ false)
        × (lib.is_number_float (string s) ≡ false)
        × (lib.is_string (string s) ≡ true)
  pub contains_found :
      (k : String) (j : Json R) {v : Json R} → lib.at k j ≡ some v → lib.contains k j ≡ true
  pub value_text_found :
      (k d : String) (j : Json R) {s : String}
      → lib.at k j ≡ some (string s)
      → lib.value_text k d j ≡ some s
  pub value_int_found :
      (k : String) (d : ℤ) (j : Json R) {n : ℤ}
      → FitsInt n
      → lib.at k j ≡ some (integer n)
      → lib.value_int k d j ≡ some n
  pub value_time_found :
      (k : String) (j : Json R) {n : ℕ}
      → n < 2 ^ 63
      → lib.at k j ≡ some (natural n)
      → lib.value_time k j ≡ some n
  -- `value` throws on what is not an object.
  pub value_text_null : (k d : String) → lib.value_text k d null ≡ none

at_step :
    {R : Type 0} {lib : JsonOps R}
    → IsJson lib
    → {k i : String} (d : Dec (i ≡ k)) (v : Json R) (ms : Members R) {rest : Option (Json R)}
      {j : Json R}
    → (rest ≡ some j → lib.at k (object ms) ≡ some j)
    → ite d (some v) rest ≡ some j
    → lib.at k (object (member i v ms)) ≡ some j
at_step {lib = lib} json {k} (yes same) v ms more e =
    ap (λ z. lib.at k (object (member z v ms))) same ∙ json.at_first k v ms ∙ e
at_step json {k} {i} (no differ) v ms more e = json.at_other k i v ms (λ p. differ (sym p)) ∙ more e

-- A member of an object that is written out is found by its name.
pub at-members_of :
    {R : Type 0} {lib : JsonOps R}
    → IsJson lib
    → (k : String) (ms : List (String × Json R)) {j : Json R} → lookup string_discrete k ms ≡ some j
    → lib.at k (object (members_of ms)) ≡ some j
unfolding lookup members_of
at-members_of json k [] e = absurd (ground (arith, e))
at-members_of json k ((i, v) ∷ ms) e =
    at_step json (string_discrete i k) v (members_of ms) (at-members_of json k ms) e
