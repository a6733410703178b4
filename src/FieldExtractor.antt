-- ===== src/FieldExtractor.antt =====
-- broker/client/field.go: the registry of the functions that extract the values of a field, by the
-- type of an object. An indexer function is an option, with `none` for a nil function; the field
-- indexer below the overlay is given by the error that its call returns.
pub mod Extracts
use poollet.Base.{String, List, [], ◌∷◌, Option, none, some, if◌then◌else◌}
use poollet.Base.Dict.{Dict, lookup, insert}
use poollet.Errors.{Result, ok, err, Error, message, ◌>>=◌}
use poollet.Api.Metadata.{Kind, GroupVersionKind, Machinery}
use poollet.Provider.{gvk_eq}

abbrev pub IndexerFunc : Type 0 → Type 0
IndexerFunc O = Option (O → List String)

abbrev pub Indexers : Type 0 → Type 0
Indexers O = Dict (IndexerFunc O)

-- The field `indexersByGVK`.
abbrev pub FieldExtractorRegistry : Type 0 → Type 0
FieldExtractorRegistry O = List (GroupVersionKind × Indexers O)

module _ {O : Type 0} where
  unfoldable pub new_field_extractor_registry : FieldExtractorRegistry O
  new_field_extractor_registry = []

  -- `indexersByGVK[gvk]`
  unfoldable pub indexers_of : GroupVersionKind → FieldExtractorRegistry O → Option (Indexers O)
  indexers_of gvk [] = none
  indexers_of gvk ((g, indexers) ∷ registry) =
      if gvk_eq g gvk then some indexers else indexers_of gvk registry

  -- `indexersByGVK[gvk]` with another content, for a new map and for a write to the one there.
  unfoldable pub put_indexers :
      GroupVersionKind → Indexers O → FieldExtractorRegistry O → FieldExtractorRegistry O
  put_indexers gvk indexers [] = (gvk, indexers) ∷ []
  put_indexers gvk indexers ((g, old) ∷ registry) =
      let rest = put_indexers gvk indexers registry in
      if gvk_eq g gvk then (gvk, indexers) ∷ registry else (g, old) ∷ rest

  abbrev pub indexers_or_empty : Option (Indexers O) → Indexers O
  indexers_or_empty none = []
  indexers_or_empty (some indexers) = indexers

  abbrev pub unless_registered : {A : Type 0} → Option (IndexerFunc O) → A → Result A
  unless_registered none a = ok a
  unless_registered (some index) a = err (message "field already registered")

  abbrev pub extracted : Option (IndexerFunc O) → O → Result (List String)
  extracted none obj = err (message "no index field")
  extracted (some none) obj = err (message "no index field")
  extracted (some (some extract)) obj = ok (extract obj)

  abbrev pub extracted_from : Option (Indexers O) → String → O → Result (List String)
  extracted_from none field obj = err (message "no indexers for type")
  extracted_from (some indexers) field obj = extracted (lookup field indexers) obj

module _ (k : Machinery) {O : Type 0} (kind_of : O → Kind) where
  -- A map that is made for a new type holds no field, so the write that follows succeeds.
  unfoldable pub register :
      FieldExtractorRegistry O → O → String → IndexerFunc O → Result (FieldExtractorRegistry O)
  unfolding indexers_of put_indexers lookup insert
  register registry object field index = k.gvk_for_object (kind_of object) >>= λ gvk.
      unless_registered (lookup field (indexers_or_empty (indexers_of gvk registry))) (
        put_indexers gvk (insert field index (indexers_or_empty (indexers_of gvk registry)))
          registry)

  unfoldable pub extract_field : FieldExtractorRegistry O → O → String → Result (List String)
  unfolding indexers_of lookup
  extract_field registry obj field =
      k.gvk_for_object (kind_of obj) >>= λ gvk. extracted_from (indexers_of gvk registry) field obj

  unfoldable pub index_field :
      Option Error
      → FieldExtractorRegistry O
      → O
      → String
      → IndexerFunc O
      → Result (FieldExtractorRegistry O)
  unfolding register
  index_field (some e) registry object field index = err e
  index_field none registry object field index = register registry object field index
