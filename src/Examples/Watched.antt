-- ===== src/Examples/Watched.antt =====
-- An object with a resource version and conditions, its unstructured form, and two updates of it.
use poollet.Base.{
  String, Bool, true, false, ◌&&◌, ◌==◌, ◌≡◌, refl, List, [], ◌∷◌, Option, none, some,
}
use poollet.Base.Dict.{Dict, lookup, insert}
use poollet.Errors.{ok}
use poollet.VolatileConditions.{Unstructured, update, as_maps}
use poollet.VolatileConditions.Updates.{IsEmptied, update-IsEmptied, update-without}

-- A condition has a type, a status and a time; a slice is a chain of `more`.
data Value : Type 0 where
  text : String → Value
  condition : String → String → String → Value
  no_more : Value
  more : Value → Value → Value

abbrev value_eq : Value → Value → Bool
value_eq (text a) (text b) = a == b
value_eq (condition a b c) (condition d e f) = a == d && (b == e && c == f)
value_eq no_more no_more = true
value_eq (more v vs) (more w ws) = value_eq v w && value_eq vs ws
value_eq _ _ = false

abbrev as_slice : Value → List Value
as_slice (more v vs) = v ∷ as_slice vs
as_slice _ = []

abbrev of_slice : List Value → Value
of_slice [] = no_more
of_slice (v ∷ vs) = more v (of_slice vs)

abbrev map_of_value : Value → Option (Dict Value)
map_of_value (condition kind status time) =
    some (("type", text kind) ∷ ("status", text status) ∷ ("lastTransitionTime", text time) ∷ [])
map_of_value _ = none

abbrev text_or_empty : Option Value → String
text_or_empty (some (text s)) = s
text_or_empty _ = ""

abbrev value_of_map : Dict Value → Value
unfolding lookup
value_of_map m =
    condition (text_or_empty (lookup "type" m)) (text_or_empty (lookup "status" m))
      (text_or_empty (lookup "lastTransitionTime" m))

record Watched : Type 0 where
  version : String
  conditions : Option Value

abbrev optional_slice : Option Value → Option (List Value)
optional_slice none = none
optional_slice (some v) = some (as_slice v)

abbrev with_conditions : Option Value → Dict Value → Dict Value
unfolding insert
with_conditions none m = m
with_conditions (some v) m = insert "conditions" v m

abbrev optional_eq : Option Value → Option Value → Bool
optional_eq none none = true
optional_eq (some v) (some w) = value_eq v w
optional_eq _ _ = false

abbrev watched : Unstructured Watched Value
unfolding lookup insert
watched = record {
  to_unstructured = λ o. ok (with_conditions o.conditions (("version", text o.version) ∷ []));
  from_unstructured = λ m o.
      ok (record {
        version = text_or_empty (lookup "version" m);
        conditions = lookup "conditions" m;
      });
  nested_slice = λ m path. ok (optional_slice (lookup "conditions" m));
  set_nested_slice = λ m slice path. ok (insert "conditions" (of_slice slice) m);
  as_map = map_of_value;
  of_map = value_of_map;
  set_resource_version = λ version o. record o { version = version };
  deep_equal = λ a b. a.version == b.version && optional_eq a.conditions b.conditions;
}

abbrev with_status : String → String → Watched
with_status version status = record {
  version = version;
  conditions = some (more (condition "Ready" status "noon") no_more);
}

abbrev emptied : String → Watched
emptied version = record { version = version; conditions = some no_more }

with_status-IsEmptied :
    (version status : String)
    → IsEmptied watched none (with_status version status) (emptied version)
unfolding as_maps lookup insert
with_status-IsEmptied version status = record {
  unstructured =
      ("version", text version)
      ∷ ("conditions", more (condition "Ready" status "noon") no_more)
      ∷ [];
  conditions = condition "Ready" status "noon" ∷ [];
  maps =
      (("type", text "Ready") ∷ ("status", text status) ∷ ("lastTransitionTime", text "noon") ∷ [])
      ∷ [];
  without = ("version", text version) ∷ ("conditions", no_more) ∷ [];
  is_unstructured = refl;
  has_conditions = refl;
  are_maps = refl;
  is_set = refl;
  is_converted = refl;
}

-- The condition's status changes, and the update is dropped.
update-IsEmptied_example :
    update watched none (with_status "1" "False") (with_status "2" "True")
    ≡ (false, (with_status "1" "False", with_status "2" "True"))
unfolding watched
update-IsEmptied_example =
    update-IsEmptied watched none (with_status "1" "False") (with_status "2" "True") (emptied "1")
      (emptied "2") (with_status-IsEmptied "1" "False") (with_status-IsEmptied "2" "True")

abbrev without_conditions : String → Watched
without_conditions version = record { version = version; conditions = none }

update-without_example :
    update watched none (without_conditions "1") (without_conditions "2")
    ≡ (false, (without_conditions "", without_conditions ""))
unfolding lookup watched
update-without_example =
    update-without watched none (without_conditions "1") (without_conditions "2")
      (("version", text "1") ∷ []) (("version", text "2") ∷ []) refl refl refl refl
