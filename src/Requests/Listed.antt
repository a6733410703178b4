-- ===== src/Requests/Listed.antt =====
-- The requests of a handler are the objects that its list calls have given.
use poollet.Base.{
  String, Bool, true, false, ◌||◌, ◌≡◌, ◌⊎◌, refl, List, [], ◌∷◌, arith, eq_iff, inl, inr,
  Bool-cases, ◌∙◌, ap,
}
use poollet.Errors.{ok, err}
use poollet.Api.Metadata.{Metadata, Kind}
use poollet.Api.Objects.{Obj, metadata_of}
use poollet.Prog.{Op, Reply, ObjectKey, Reader, list}
use poollet.Prog.Trace.{Runs, Exchange, Accepts, Accepts-Runs, Safe, Safe-bind, after}
use poollet.Handlers.{Event, create, delete, generic, update, has_request, insert_request, key_eq}
use poollet.Controllers.Apply.{key_of}
use poollet.Requests.{
  RequestSet, insert_list_requests, insert_object_request, on_event, by_field_reference, by_field,
}

key_eq-eq : (a b : ObjectKey) → key_eq a b ≡ true → a ≡ b
key_eq-eq a b h = ground (arith, eq_iff a.namespace b.namespace, eq_iff a.name b.name)

pub has_request-insert_request :
    (item key : ObjectKey) (reqs : RequestSet)
    → has_request (insert_request item reqs) key ≡ key_eq item key || has_request reqs key
has_request-insert_request item key reqs = elim (Bool-cases (key_eq item key)) [
  | inl same ↦ let e = key_eq-eq item key same in ground (arith, ap (λ x. has_request reqs x) e)
  | inr other ↦ ground arith
]

-- Whether an object of the key was listed.
abbrev pub lists : (kind : Kind) → List (Obj kind) → ObjectKey → Bool
lists kind [] key = false
lists kind (obj ∷ objs) key = key_eq (key_of (metadata_of kind obj)) key || lists kind objs key

insert_list_requests-lists :
    (kind : Kind) (objs : List (Obj kind)) (reqs : RequestSet) (key : ObjectKey)
    → has_request (insert_list_requests kind objs reqs) key
      ≡ has_request reqs key || lists kind objs key
unfolding insert_list_requests insert_object_request
insert_list_requests-lists kind [] reqs key = ground arith
insert_list_requests-lists kind (obj ∷ objs) reqs key =
    let item = key_of (metadata_of kind obj) in
    ground (
      arith,
      insert_list_requests-lists kind objs (insert_request item reqs) key,
      has_request-insert_request item key reqs,
    )

module _ (reader : Reader) (kind : Kind) (field : String) (event : Event) (key : ObjectKey) where
  -- Whether some list call of the run has given an object of the key.
  abbrev pub given : Bool → (o : Op) → Reply o → Bool
  given b (list r k options) (ok objs) = b || lists k objs key
  given b o r = b

  -- The objects of an event.
  abbrev pub IsObject : Metadata → Event → Type 0
  IsObject obj (create o) = obj ≡ o
  IsObject obj (delete o) = obj ≡ o
  IsObject obj (generic o) = obj ≡ o
  IsObject obj (update old new) = (obj ≡ old) ⊎ (obj ≡ new)

  -- The only calls are lists by the field, for an object of the event.
  abbrev pub AllowedList : Bool → Op → Type 0
  AllowedList b (list r k options) =
      (obj : Metadata) × IsObject obj event
      × (r ≡ reader)
      × (k ≡ kind)
      × (options ≡ by_field field obj)
  AllowedList b _ = ⊥

  abbrev pub Requested : Bool → RequestSet → Type 0
  Requested b reqs = has_request reqs key ≡ b

  handle-Safe :
      (obj : Metadata) (reqs : RequestSet) (b : Bool)
      → IsObject obj event
      → Requested b reqs
      → Safe given AllowedList Requested b (by_field_reference reader kind field obj reqs)
  unfolding by_field_reference
  handle-Safe obj reqs b is_object h = (
    (obj, is_object, refl, refl, refl),
    elim [
      | err e ↦ h
      | ok objs ↦
          insert_list_requests-lists kind objs reqs key ∙ ap (λ x. x || lists kind objs key) h
    ],
  )

module _ (reader : Reader) (kind : Kind) (field : String) (key : ObjectKey) where
  event-Safe :
      (event : Event)
      → Safe
          (given reader kind field event key)
          (AllowedList reader kind field event key)
          (Requested reader kind field event key)
          false
          (on_event (by_field_reference reader kind field) event)
  unfolding on_event
  event-Safe (create obj) = handle-Safe reader kind field (create obj) key obj [] false refl refl
  event-Safe (delete obj) = handle-Safe reader kind field (delete obj) key obj [] false refl refl
  event-Safe (generic obj) = handle-Safe reader kind field (generic obj) key obj [] false refl refl
  event-Safe (update old new) =
      let e = update old new in
      Safe-bind (given reader kind field e key) (AllowedList reader kind field e key)
        (Requested reader kind field e key) (Requested reader kind field e key) false
        (by_field_reference reader kind field old []) _
        (handle-Safe reader kind field e key old [] false (inl refl) refl)
        λ b reqs h. handle-Safe reader kind field e key new reqs b (inr refl) h

  -- In every run of the handler by a field reference, on any event: it makes no calls but lists of
  -- the objects that name an object of the event in the field, and a key is requested exactly if
  -- one of these lists has given an object of that key.
  pub by_field_reference-Requested :
      (event : Event) {trace : List Exchange} {reqs : RequestSet}
      → Runs (on_event (by_field_reference reader kind field) event) trace reqs
      → Accepts
          (given reader kind field event key)
          (AllowedList reader kind field event key)
          false
          trace
        × Requested reader kind field event key
            (after
              (given reader kind field event key)
              (AllowedList reader kind field event key)
              false
              trace)
            reqs
  by_field_reference-Requested event run =
      Accepts-Runs (given reader kind field event key) (AllowedList reader kind field event key)
        (Requested reader kind field event key) run false (event-Safe event)
