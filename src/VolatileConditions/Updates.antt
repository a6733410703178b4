-- ===== src/VolatileConditions/Updates.antt =====
-- What the predicate on updates compares, and what it leaves behind.
use poollet.Base.{String, not, false, true, ◌≡◌, refl, List, [], ◌∷◌, Option, none, some}
use poollet.Base.Dict.{Dict}
use poollet.Errors.{ok}
use poollet.VolatileConditions.{
  Unstructured, conditions_path, as_maps, nested_field_slice, set_nested_field_slice, of_maps,
  prune_each, prune_volatile_condition_fields, update, fields_or_default,
}

module _ {O Any : Type 0} (u : Unstructured O Any) (fields : Option (List String)) where
  prune_each-new_conditions :
      (fs : List String) (conditions new_conditions : List (Dict Any))
      → (prune_each u fs conditions new_conditions).1 ≡ new_conditions
  unfolding prune_each
  prune_each-new_conditions fs [] new_conditions = refl
  prune_each-new_conditions fs (c ∷ conditions) new_conditions =
      prune_each-new_conditions fs conditions new_conditions

  -- What an object with conditions is pruned to, by way of the object with an empty list of them.
  pub record IsEmptied (obj emptied : O) : Type 0 where
    pub unstructured : Dict Any
    pub conditions : List Any
    pub maps : List (Dict Any)
    pub without : Dict Any
    pub is_unstructured : u.to_unstructured obj ≡ ok unstructured
    pub has_conditions : u.nested_slice unstructured conditions_path ≡ ok (some conditions)
    pub are_maps : as_maps u conditions ≡ ok maps
    pub is_set : u.set_nested_slice unstructured [] conditions_path ≡ ok without
    pub is_converted : u.from_unstructured without obj ≡ ok emptied

  prune-IsEmptied :
      (obj emptied : O)
      → IsEmptied obj emptied
      → prune_volatile_condition_fields u fields obj
        ≡ ok (record { object = emptied; is_given = false })
  unfolding prune_volatile_condition_fields nested_field_slice set_nested_field_slice of_maps
  prune-IsEmptied obj emptied h =
      rw
        (
          h.is_unstructured,
          h.has_conditions,
          h.are_maps,
          prune_each-new_conditions (fields_or_default u fields) h.maps [],
          h.is_set,
          h.is_converted,
        )
        refl

  -- Two objects with conditions are compared without any of their conditions and without their
  -- resource versions, whichever fields are volatile: the update passes exactly if they differ in
  -- the rest, so it is dropped if a condition's status is all that has changed.
  pub update-IsEmptied :
      (object_old object_new old new : O)
      → IsEmptied object_old old
      → IsEmptied object_new new
      → update u fields object_old object_new ≡ (
        not (u.deep_equal (u.set_resource_version "" old) (u.set_resource_version "" new)),
        (object_old, object_new),
      )
  unfolding update
  update-IsEmptied object_old object_new old new h h' =
      rw (prune-IsEmptied object_old old h, prune-IsEmptied object_new new h') refl

  prune-without :
      (obj : O) (unstructured : Dict Any)
      → u.to_unstructured obj ≡ ok unstructured
      → u.nested_slice unstructured conditions_path ≡ ok none
      → prune_volatile_condition_fields u fields obj ≡ ok (record { object = obj; is_given = true })
  unfolding prune_volatile_condition_fields nested_field_slice
  prune-without obj unstructured h none_there = rw (h, none_there) refl

  -- Two objects without conditions are compared without their resource versions, which are also
  -- taken off the objects of the event themselves: whoever sees them next finds them empty.
  pub update-without :
      (object_old object_new : O) (old new : Dict Any)
      → u.to_unstructured object_old ≡ ok old
      → u.nested_slice old conditions_path ≡ ok none
      → u.to_unstructured object_new ≡ ok new
      → u.nested_slice new conditions_path ≡ ok none
      → update u fields object_old object_new ≡ (
        not (
            u.deep_equal
              (u.set_resource_version "" object_old)
              (u.set_resource_version "" object_new)),
        (u.set_resource_version "" object_old, u.set_resource_version "" object_new),
      )
  unfolding update
  update-without object_old object_new old new h none_old h' none_new =
      rw (prune-without object_old old h none_old, prune-without object_new new h' none_new) refl
