-- ===== src/Dependents/Listing.antt =====
-- broker/dependents/listreferencer.go: referencers that list the objects of a type and filter them.
-- A `client.ListOption` is what it does to the options, a later one after an earlier one.
use poollet.Base.{String, Bool, true, false, List, [], ◌∷◌, ◌++◌, none, some}
use poollet.Base.Dict.{Dict}
use poollet.Errors.{Result, ok, err}
use poollet.Api.Metadata.{Kind, MetaObject}
use poollet.Api.Objects.{Obj}
use poollet.Helpers.{has_name}
use poollet.Prog.{
  Prog, done, perform, ◌>>=◌, ◌>>?◌, ListOptions, Reader, cached, live, source, list,
}
use poollet.Dependents.{Referencer}

pub data ClientListOption : Type 0 where
  in_namespace : String → ClientListOption
  matching_fields matching_labels : Dict String → ClientListOption

-- `ApplyToList`
abbrev pub apply_to_list : ClientListOption → ListOptions → ListOptions
apply_to_list (in_namespace namespace) options = record options { namespace = some namespace }
apply_to_list (matching_fields fields) options = record options { fields = fields }
apply_to_list (matching_labels labels) options = record options { labels = labels }

abbrev pub apply_options : List ClientListOption → ListOptions → ListOptions
apply_options [] options = options
apply_options (o ∷ opts) options = apply_options opts (apply_to_list o options)

abbrev pub no_options : ListOptions
no_options = record { namespace = none; fields = []; labels = [] }

-- The interface `ListOption`.
abbrev pub ListOption : Type 0
ListOption = MetaObject → List ClientListOption

unfoldable pub client_list_options : List ClientListOption → ListOption
client_list_options opts referenced = opts

unfoldable pub field_list_options : String → ListOption
field_list_options field referenced =
    in_namespace referenced.metadata.namespace
    ∷ matching_fields ((field, referenced.metadata.name) ∷ [])
    ∷ []

unfoldable pub in_referenced_object_namespace : ListOption
in_referenced_object_namespace referenced = in_namespace referenced.metadata.namespace ∷ []

unfoldable pub in_referenced_namespace_name_namespace : ListOption
in_referenced_namespace_name_namespace referenced = in_namespace referenced.metadata.name ∷ []

-- The loop over `r.Options`.
unfoldable pub all_options : List ListOption → MetaObject → List ClientListOption
all_options [] referenced = []
all_options (o ∷ options) referenced = o referenced ++ all_options options referenced

module _ (kind : Kind) where
  -- The interface `ListPredicate`.
  abbrev pub ListPredicate : Type 0
  ListPredicate = MetaObject → Obj kind → Prog (Result Bool)

  unfoldable pub field_indexer_func_predicate : (Obj kind → List String) → ListPredicate
  field_indexer_func_predicate indexer_func referenced obj =
      done (ok (has_name (indexer_func obj) referenced.metadata.name))

  pub record ListReferencer : Type 0 where
    pub options : List ListOption
    pub predicates : List ListPredicate
    pub is_live : Bool

  -- The reader that was injected.
  abbrev pub reader_of : Bool → Reader
  reader_of true = live source
  reader_of false = cached source

  -- The loop over `r.Predicates` for one object.
  unfoldable pub matches_all : List ListPredicate → MetaObject → Obj kind → Prog (Result Bool)
  matches_all [] referenced obj = done (ok true)
  matches_all (p ∷ predicates) referenced obj = p referenced obj >>= elim [
    | err e ↦ done (err e)
    | ok false ↦ done (ok false)
    | ok true ↦ matches_all predicates referenced obj
  ]

  unfoldable pub filter_list :
      (Obj kind → Prog (Result Bool)) → List (Obj kind) → Prog (Result (List (Obj kind)))
  filter_list f [] = done (ok [])
  filter_list f (obj ∷ objs) = f obj >>= elim [
    | err e ↦ done (err e)
    | ok false ↦ filter_list f objs
    | ok true ↦ filter_list f objs >>? λ filtered. done (ok (obj ∷ filtered))
  ]

  abbrev pub is_nonempty : List (Obj kind) → Bool
  is_nonempty [] = false
  is_nonempty (obj ∷ objs) = true

  -- The part after the list call.
  abbrev pub filtered : List ListPredicate → MetaObject → List (Obj kind) → Prog (Result Bool)
  filtered [] referenced objs = done (ok (is_nonempty objs))
  filtered (p ∷ predicates) referenced objs =
      filter_list (matches_all (p ∷ predicates) referenced) objs >>? λ objs'.
      done (ok (is_nonempty objs'))

  unfoldable pub references : ListReferencer → Referencer
  unfolding all_options filter_list matches_all
  references r referenced =
      perform (
        list (reader_of r.is_live) kind
          (apply_options (all_options r.options referenced) no_options))
      >>= elim [ err e ↦ done (err e) | ok objs ↦ filtered r.predicates referenced objs ]
