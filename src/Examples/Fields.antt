-- ===== src/Examples/Fields.antt =====
-- The registry of field extractors, with two fields of secrets and machines.
use poollet.Base.{String, ◌≡◌, refl, ◌≢◌, List, [], ◌∷◌, some}
use poollet.Base.Dict.{lookup, insert}
use poollet.Errors.{ok}
use poollet.Api.Metadata.{Kind, secret}
use poollet.FieldExtractor.{
  FieldExtractorRegistry, IndexerFunc, register, extract_field, indexers_of, put_indexers,
}
use poollet.FieldExtractor.Extracts.{extract_field-register}
use poollet.Examples.Codec.{machinery, gvk_for}

-- An object is its kind and its name.
abbrev Named : Type 0
Named = Kind × String

abbrev name_of : Named → List String
name_of o = o.1 ∷ []

abbrev kind_of : Named → Kind
kind_of o = o.0

abbrev before : FieldExtractorRegistry Named
before = (gvk_for secret, ("name", some name_of) ∷ []) ∷ []

abbrev nothing_of : Named → List String
nothing_of o = []

abbrev after : FieldExtractorRegistry Named
after = (gvk_for secret, ("name", some name_of) ∷ ("owner", some nothing_of) ∷ []) ∷ []

owner_registered :
    register machinery kind_of before (secret, "a") "owner" (some nothing_of) ≡ ok after
unfolding register lookup insert indexers_of put_indexers
owner_registered = refl

extract_field-register_example :
    (extract_field machinery kind_of after (secret, "b") "owner" ≡ ok [])
    × ((index : IndexerFunc Named) (again : FieldExtractorRegistry Named)
        → register machinery kind_of after (secret, "b") "owner" index ≢ ok again)
    × (extract_field machinery kind_of after (secret, "c") "name" ≡ ok ("c" ∷ []))
unfolding extract_field indexers_of lookup
extract_field-register_example =
    extract_field-register machinery kind_of before after (secret, "a") "owner" nothing_of
      owner_registered (secret, "b") (secret, "c") "name" ("c" ∷ []) refl refl refl
