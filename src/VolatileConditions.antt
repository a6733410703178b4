-- ===== src/VolatileConditions.antt =====
-- predicate/predicate.go: the predicate on updates that is to pass over volatile condition fields.
-- Values of type `interface{}` are of a type `Any`. The predicate's `Fields` are an option, with
-- `none` for nil. An update gives the answer and the two objects of the event afterwards, since
-- the code can hand on an object of the event itself.
pub mod Updates
use poollet.Base.{String, Bool, true, false, not, if◌then◌else◌, List, [], ◌∷◌, Option, none, some}
use poollet.Base.Dict.{Dict, remove}
use poollet.Errors.{Result, ok, err, message, ◌>>=◌}

-- What the code calls of the API machinery, of the object type `O` and of `interface{}`.
pub record Unstructured (O Any : Type 0) : Type 0 where
  pub to_unstructured : O → Result (Dict Any)
  pub from_unstructured : Dict Any → O → Result O
  pub nested_slice : Dict Any → List String → Result (Option (List Any))
  pub set_nested_slice : Dict Any → List Any → List String → Result (Dict Any)
  pub as_map : Any → Option (Dict Any)
  pub of_map : Dict Any → Any
  pub set_resource_version : String → O → O
  pub deep_equal : O → O → Bool

abbrev pub default_volatile_condition_fields : List String
default_volatile_condition_fields =
    "lastTransitionTime" ∷ "lastUpdateTime" ∷ "lastScaleTime" ∷ "lastProbeTime"
    ∷ "lastHeartbeatTime" ∷ []

abbrev pub conditions_path : List String
conditions_path = "status" ∷ "conditions" ∷ []

-- A pruned object, and whether it is the object that was given and not a copy.
pub record Pruned (O : Type 0) : Type 0 where
  pub object : O
  pub is_given : Bool

module _ {O Any : Type 0} (u : Unstructured O Any) where
  -- The loop of `nestedFieldSlice`.
  unfoldable pub as_maps : List Any → Result (List (Dict Any))
  as_maps [] = ok []
  as_maps (v ∷ slice) = elim (u.as_map v) [
    | none ↦ err (message "accessor error: contains non-field key in the slice")
    | some field ↦ as_maps slice >>= λ res. ok (field ∷ res)
  ]

  unfoldable pub nested_field_slice : Dict Any → List String → Result (Option (List (Dict Any)))
  unfolding as_maps
  nested_field_slice obj fields =
      u.nested_slice obj fields
      >>= elim [ none ↦ ok none | some slice ↦ as_maps slice >>= λ res. ok (some res) ]

  unfoldable pub of_maps : List (Dict Any) → List Any
  of_maps [] = []
  of_maps (v ∷ value) = u.of_map v ∷ of_maps value

  unfoldable pub set_nested_field_slice :
      Dict Any → List (Dict Any) → List String → Result (Dict Any)
  unfolding of_maps
  set_nested_field_slice obj value fields = u.set_nested_slice obj (of_maps value) fields

  -- The inner loop: `delete(conditionValue, timeField)` for every field.
  unfoldable pub delete_fields : List String → Dict Any → Dict Any
  unfolding remove
  delete_fields [] condition = condition
  delete_fields (f ∷ fields) condition = delete_fields fields (remove f condition)

  -- The loop over the conditions: what it leaves in `conditions` and in `newConditions`.
  unfoldable pub prune_each :
      List String → List (Dict Any) → List (Dict Any) → List (Dict Any) × List (Dict Any)
  unfolding delete_fields
  prune_each fields [] new_conditions = ([], new_conditions)
  prune_each fields (c ∷ conditions) new_conditions =
      let rest = prune_each fields conditions new_conditions in
      (delete_fields fields c ∷ rest.0, rest.1)

  abbrev pub fields_or_default : Option (List String) → List String
  fields_or_default none = default_volatile_condition_fields
  fields_or_default (some fields) = fields

  unfoldable pub prune_volatile_condition_fields : Option (List String) → O → Result (Pruned O)
  unfolding nested_field_slice set_nested_field_slice prune_each
  prune_volatile_condition_fields fields obj = u.to_unstructured obj >>= λ unstructured.
      nested_field_slice unstructured conditions_path >>= elim [
        | none ↦ ok (record { object = obj; is_given = true })
        | some conditions ↦
            set_nested_field_slice unstructured
              (prune_each (fields_or_default fields) conditions []).1 conditions_path
            >>= λ pruned. u.from_unstructured pruned obj >>= λ copy.
                ok (record { object = copy; is_given = false })
      ]

  -- The object of the event after `SetResourceVersion("")` on what it was pruned to.
  abbrev pub left_in_event : O → Pruned O → O
  left_in_event obj pruned =
      if pruned.is_given then u.set_resource_version "" pruned.object else obj

  -- The rest of `Update` after both objects are pruned.
  abbrev pub compared : O → O → Result (Pruned O) → Result (Pruned O) → Bool × (O × O)
  compared object_old object_new (err e) new = (true, (object_old, object_new))
  compared object_old object_new (ok old) (err e) = (true, (object_old, object_new))
  compared object_old object_new (ok old) (ok new) = (
    not (
        u.deep_equal (u.set_resource_version "" old.object) (u.set_resource_version "" new.object)),
    (left_in_event object_old old, left_in_event object_new new),
  )

  unfoldable pub update : Option (List String) → O → O → Bool × (O × O)
  unfolding prune_volatile_condition_fields
  update fields object_old object_new =
      compared object_old object_new (prune_volatile_condition_fields fields object_old)
        (prune_volatile_condition_fields fields object_new)
