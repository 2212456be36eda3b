-- ===== src/Parameters/Table.antt =====
-- src/common/Parameter.cpp: the table of parameters (`ParameterManager`).
use mathlib.Core.Path.{subst, subst⁻¹}
use lib_stereo_camera.Common.{
  String, [], ◌∷◌, ◌++◌, append_assoc, append-nil, ◌≡◌, ◌≢◌, refl, sym, ap, ◌∙◌, arith, map, Bool,
  true, not, ◌&&◌, none, some, if◌then◌else◌, is_yes, string_discrete, lookup, insert,
  lookup-insert, ite, inl, inr, if_neg, both_branches, Option-cases,
}
use lib_stereo_camera.Client.{ParameterValue}
use lib_stereo_camera.Json.{JsonOps, IsJson, FitsInt}
use lib_stereo_camera.Parameters.{
  Parameter, Fresh, ParameterManager, to_json, define, get, set, set_value, all_to_json, read_all,
  all_from_json,
}
use lib_stereo_camera.Parameters.Trip.{kept, from_json-to_json}

module _ {R : Type 0} where
  -- Each parameter stands once, under its own name, and its integer is one of an `int`.
  abbrev pub IsValid : ParameterManager R → Type 0
  IsValid [] = Unit
  IsValid ((k, p) ∷ params) =
      (k ≡ p.name)
      × FitsInt p.value.int_val
      × (lookup string_discrete k params ≡ none)
      × IsValid params

  -- The table after `insert` meets an entry, whichever way the test of its key goes.
  insert_at-IsValid :
      (p : Parameter R) {k : String} (q : Parameter R) (params : ParameterManager R)
      (d : Dec (k ≡ p.name))
      → FitsInt p.value.int_val
      → IsValid ((k, q) ∷ params)
      → IsValid (insert string_discrete p.name p params)
      → IsValid (ite d ((k, p) ∷ params) ((k, q) ∷ insert string_discrete p.name p params))
  insert_at-IsValid p q params (yes same) fits v rest = (same, fits, v.2, v.3)
  insert_at-IsValid p {k} q params (no differ) fits v rest = (
    v.0,
    v.1,
    lookup-insert string_discrete p.name k p params
        ∙ if_neg (string_discrete p.name k) (λ e. differ (sym e)) _ _
        ∙ v.2,
    rest,
  )

  insert-IsValid :
      (p : Parameter R) (params : ParameterManager R)
      → FitsInt p.value.int_val
      → IsValid params
      → IsValid (insert string_discrete p.name p params)
  unfolding insert lookup
  insert-IsValid p [] fits v = (refl, fits, refl, tt)
  insert-IsValid p ((k, q) ∷ params) fits v =
      insert_at-IsValid p q params (string_discrete k p.name) fits v
        (insert-IsValid p params fits v.3)

  -- `define` keeps the table valid, and so does `set`.
  pub define-IsValid :
      (p : Parameter R) (params : ParameterManager R)
      → FitsInt p.value.int_val
      → IsValid params
      → IsValid (define p params)
  unfolding define
  define-IsValid p params fits v = insert-IsValid p params fits v

  -- A table that has a parameter under a name has it under its own.
  lookup-name :
      (name : String) (params : ParameterManager R) {p : Parameter R}
      → IsValid params
      → lookup string_discrete name params ≡ some p
      → name ≡ p.name
  unfolding lookup
  lookup-name name [] v e = absurd (ground (arith, e))
  lookup-name name ((k, q) ∷ params) {p} v e =
      ground (arith, e, v.0, lookup-name name params {p = p} v.3)

  insert_new :
      (k : String) (p : Parameter R) (params : ParameterManager R)
      → lookup string_discrete k params ≡ none
      → insert string_discrete k p params ≡ params ++ (k, p) ∷ []
  unfolding lookup insert
  insert_new k p [] e = refl
  insert_new k p ((j, q) ∷ params) e = ground (arith, insert_new k p params)

module _ {R : Type 0} (fresh : Fresh R) where
  -- `set` succeeds exactly if the parameter that `get` gives is available and not read-only; then that
  -- parameter has the new value, with its type as it was, and the others stay; if it fails, all stay.
  pub get-set :
      (name other : String) (value : ParameterValue R) (params : ParameterManager R)
      → let (after, done) = set name value params in
        let p = get fresh name params in
        (done ≡ (p.is_available && not p.is_readonly))
        × (get fresh other after ≡ (
            if done && is_yes (string_discrete name other)
            then record p { value = value }
            else get fresh other params))
  unfolding set set_value get
  get-set name other value params = elim (Option-cases (lookup string_discrete name params)) [
    | inl e ↦ ground (arith, e)
    | inr (p, e) ↦
        ground
          (arith, e, lookup-insert string_discrete name other (record p { value = value }) params)
  ]

  -- What `set` is given fits an `int`: it keeps the table valid.
  pub set-IsValid :
      (name : String) (value : ParameterValue R) (params : ParameterManager R)
      → FitsInt value.int_val
      → IsValid params
      → IsValid (set name value params).0
  unfolding set set_value
  set-IsValid name value params fits v = elim (Option-cases (lookup string_discrete name params)) [
    | inl e ↦ rw (e, set_value) v
    | inr (p, e) ↦
        let kept_valid =
          subst⁻¹ (λ n. IsValid (insert string_discrete n (record p { value = value }) params))
            (lookup-name name params v e)
            (insert-IsValid (record p { value = value }) params fits v) in
        rw (e, set_value)
          (both_branches {A = ParameterManager R × Bool} (λ r. IsValid r.0) p.is_readonly v
            (both_branches {A = ParameterManager R × Bool} (λ r. IsValid r.0) (not p.is_available) v
              kept_valid))
  ]

  -- The entries as they are read back.
  unfoldable pub kept_all : ParameterManager R → ParameterManager R
  kept_all [] = []
  kept_all ((k, p) ∷ params) = (k, kept fresh p) ∷ kept_all params

module _ {R : Type 0} {lib : JsonOps R} (json : IsJson lib) (fresh : Fresh R) where
  -- No name of the entries stands in the table.
  abbrev Apart : ParameterManager R → ParameterManager R → Type 0
  Apart [] acc = Unit
  Apart ((k, p) ∷ params) acc = (lookup string_discrete k acc ≡ none) × Apart params acc

  lookup-append_one :
      (k j : String) (p : Parameter R) (acc : ParameterManager R)
      → lookup string_discrete j acc ≡ none
      → k ≢ j
      → lookup string_discrete j (acc ++ (k, p) ∷ []) ≡ none
  unfolding lookup
  lookup-append_one k j p [] e ne = if_neg (string_discrete k j) ne _ _
  lookup-append_one k j p ((i, q) ∷ acc) e ne = ground (arith, lookup-append_one k j p acc)

  Apart-append_one :
      (k : String) (p : Parameter R) (params acc : ParameterManager R)
      → Apart params acc
      → lookup string_discrete k params ≡ none
      → Apart params (acc ++ (k, p) ∷ [])
  unfolding lookup
  Apart-append_one k p [] acc a e = tt
  Apart-append_one k p ((j, q) ∷ params) acc a e = (
    lookup-append_one k j p acc a.0 (λ same. ground (arith, e, sym same)),
    Apart-append_one k p params acc a.1 (ground (arith, e)),
  )

  Apart-nil : (params : ParameterManager R) → Apart params []
  unfolding lookup
  Apart-nil [] = tt
  Apart-nil ((k, p) ∷ params) = (refl, Apart-nil params)

  read_all-written :
      (params acc : ParameterManager R)
      → IsValid params
      → Apart params acc
      → read_all lib fresh (map (λ e. to_json e.1) params) acc
        ≡ (acc ++ kept_all fresh params, true)
  unfolding read_all kept_all define kept
  read_all-written [] acc v a = ap (λ m. (m, true)) (sym (append-nil acc))
  read_all-written ((k, p) ∷ params) acc v a =
      let n = p.name in
      let q = kept fresh p in
      let js = map (λ e. to_json e.1) params in
      let in_acc = subst (λ z. lookup string_discrete z acc ≡ none) v.0 a.0 in
      let in_params = subst (λ z. lookup string_discrete z params ≡ none) v.0 v.2 in
      let rest =
        read_all-written params (acc ++ (n, q) ∷ []) v.3
          (Apart-append_one n q params acc a.1 in_params) in
      rw (from_json-to_json json fresh p v.1, read_all)
        (ap (read_all lib fresh js) (insert_new n q acc in_acc)
          ∙ rest
          ∙ ap (λ m. (m, true))
              (append_assoc acc ((n, q) ∷ []) (kept_all fresh params)
                ∙ ap (λ z. acc ++ (z, q) ∷ kept_all fresh params) (sym v.0)))

  -- A valid table, written as JSON and read into an empty table, is the table, but that of each value
  -- only what its parameter's type names is kept; and nothing throws.
  pub all_from_json-all_to_json :
      (params : ParameterManager R)
      → IsValid params
      → all_from_json lib fresh (all_to_json params) [] ≡ (kept_all fresh params, true)
  unfolding all_from_json all_to_json
  all_from_json-all_to_json params v =
      ap (λ js. read_all lib fresh js []) (json.items_array (map (λ e. to_json e.1) params))
      ∙ read_all-written params [] v (Apart-nil params)
