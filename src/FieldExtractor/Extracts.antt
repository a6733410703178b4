-- ===== src/FieldExtractor/Extracts.antt =====
-- What is extracted after a field was registered.
use poollet.Base.{
  ap, sym, ◌∙◌, String, false, ◌≡◌, refl, ◌≢◌, List, [], ◌∷◌, Option, none, some, arith, inl, inr,
  ◌==◌, Bool-cases,
}
use poollet.Base.Dict.{lookup, insert, lookup-insert_self, lookup-insert_ne}
use poollet.Errors.{message, ok, err, Result-cases}
use poollet.Api.Metadata.{Kind, GroupVersionKind, Machinery}
use poollet.Provider.{gvk_eq}
use poollet.Provider.Registered.{gvk_eq_self, gvk_eq-eq}
use poollet.FieldExtractor.{
  IndexerFunc, Indexers, FieldExtractorRegistry, indexers_of, put_indexers, register, extract_field,
  indexers_or_empty, unless_registered, extracted, extracted_from,
}

module _ {O : Type 0} where
  indexers_of-put_indexers_self :
      (gvk : GroupVersionKind) (indexers : Indexers O) (registry : FieldExtractorRegistry O)
      → indexers_of gvk (put_indexers gvk indexers registry) ≡ some indexers
  unfolding indexers_of put_indexers
  indexers_of-put_indexers_self gvk indexers [] = ground (arith, gvk_eq_self gvk)
  indexers_of-put_indexers_self gvk indexers ((g, old) ∷ registry) =
      ground (arith, gvk_eq_self gvk, indexers_of-put_indexers_self gvk indexers registry)

  indexers_of-put_indexers_ne :
      (gvk other : GroupVersionKind) (indexers : Indexers O) (registry : FieldExtractorRegistry O)
      → gvk_eq gvk other ≡ false
      → indexers_of other (put_indexers gvk indexers registry) ≡ indexers_of other registry
  unfolding indexers_of put_indexers
  indexers_of-put_indexers_ne gvk other indexers [] h = ground arith
  indexers_of-put_indexers_ne gvk other indexers ((g, old) ∷ registry) h =
      elim (Bool-cases (gvk_eq g gvk)) [
        | inl e ↦ let same = gvk_eq-eq g gvk e in ground (arith, ap (λ x. gvk_eq x other) same)
        | inr e ↦ ground (arith, indexers_of-put_indexers_ne gvk other indexers registry h)
      ]

  unless_registered-ok :
      {A : Type 0} (o : Option (IndexerFunc O)) (a b : A) → unless_registered o a ≡ ok b → b ≡ a
  unless_registered-ok none a b h = ground arith
  unless_registered-ok (some index) a b h = absurd (ground arith)

module _ (k : Machinery) {O : Type 0} (kind_of : O → Kind)
    (registry registry' : FieldExtractorRegistry O) (object : O) (field : String)
    (extract : O → List String) where
  abbrev registered : GroupVersionKind → FieldExtractorRegistry O
  registered gvk =
      put_indexers gvk (insert field (some extract) (indexers_or_empty (indexers_of gvk registry)))
        registry

  register-registered :
      (gvk : GroupVersionKind)
      → k.gvk_for_object (kind_of object) ≡ ok gvk
      → register k kind_of registry object field (some extract) ≡ ok registry'
      → registry' ≡ registered gvk
  unfolding register
  register-registered gvk found h =
      unless_registered-ok (lookup field (indexers_or_empty (indexers_of gvk registry)))
        (registered gvk) registry' (rw found at h)

  again-refused :
      (obj : O) (gvk : GroupVersionKind) (index : IndexerFunc O)
      → k.gvk_for_object (kind_of obj) ≡ ok gvk
      → register k kind_of (registered gvk) obj field index
        ≡ err (message "field already registered")
  unfolding register
  again-refused obj gvk index found =
      let indexers = indexers_or_empty (indexers_of gvk registry) in
      rw
        (
          found,
          indexers_of-put_indexers_self gvk (insert field (some extract) indexers) registry,
          lookup-insert_self field (some extract) indexers,
        )
        refl

  then-extracted :
      (obj : O) (gvk : GroupVersionKind)
      → k.gvk_for_object (kind_of obj) ≡ ok gvk
      → extract_field k kind_of (registered gvk) obj field ≡ ok (extract obj)
  unfolding extract_field
  then-extracted obj gvk found =
      let indexers = indexers_or_empty (indexers_of gvk registry) in
      rw
        (
          found,
          indexers_of-put_indexers_self gvk (insert field (some extract) indexers) registry,
          lookup-insert_self field (some extract) indexers,
        )
        refl

  extracted_or_empty :
      (o : Option (Indexers O)) (other : String) (obj : O) (values : List String)
      → extracted_from o other obj ≡ ok values
      → extracted (lookup other (indexers_or_empty o)) obj ≡ ok values
  extracted_or_empty none other obj values h = absurd (ground arith)
  extracted_or_empty (some indexers) other obj values h = h

  still-extracted :
      (gvk g : GroupVersionKind) (obj : O) (other : String) (values : List String)
      → (field == other) ≡ false
      → extracted_from (indexers_of g registry) other obj ≡ ok values
      → extracted_from (indexers_of g (registered gvk)) other obj ≡ ok values
  still-extracted gvk g obj other values differ before =
      let indexers = indexers_or_empty (indexers_of gvk registry) in
      let put = insert field (some extract) indexers in
      elim (Bool-cases (gvk_eq gvk g)) [
        | inr e ↦ rw (indexers_of-put_indexers_ne gvk g put registry e) before
        | inl e ↦
            rw
              (
                sym (gvk_eq-eq gvk g e),
                indexers_of-put_indexers_self gvk put registry,
                lookup-insert_ne field other (some extract) indexers differ,
              )
              (extracted_or_empty (indexers_of gvk registry) other obj values
                (rw (gvk_eq-eq gvk g e) before))
      ]

  registered-extract_field :
      register k kind_of registry object field (some extract) ≡ ok registry'
      → (obj : O) → kind_of obj ≡ kind_of object
      → (extract_field k kind_of registry' obj field ≡ ok (extract obj))
        × ((index : IndexerFunc O) (again : FieldExtractorRegistry O)
            → register k kind_of registry' obj field index ≢ ok again)
  unfolding register extract_field
  registered-extract_field h obj same = elim (Result-cases (k.gvk_for_object (kind_of object))) [
    | inr (e, failed) ↦ absurd (ground arith)
    | inl (gvk, found) ↦
        let found' = ap (λ x. k.gvk_for_object x) same ∙ found in
        rw (register-registered gvk found h) (
          then-extracted obj gvk found',
          λ index again accepted. absurd (ground (arith, again-refused obj gvk index found')),
        )
  ]

  other-extract_field :
      register k kind_of registry object field (some extract) ≡ ok registry'
      → (obj : O) (other : String) (values : List String) → (field == other) ≡ false
      → extract_field k kind_of registry obj other ≡ ok values
      → extract_field k kind_of registry' obj other ≡ ok values
  unfolding extract_field register
  other-extract_field h obj other values differ before =
      elim (Result-cases (k.gvk_for_object (kind_of object))) [
        | inr (e, failed) ↦ absurd (ground arith)
        | inl (gvk, found) ↦ elim (Result-cases (k.gvk_for_object (kind_of obj))) [
          | inr (e, failed) ↦ absurd (ground arith)
          | inl (g, found') ↦
              rw (register-registered gvk found h, found')
                (still-extracted gvk g obj other values differ (rw found' at before))
        ]
      ]

  -- After a function was registered for a field it is the one that extracts the field, from every
  -- object of the same kind; registering the field for that kind again is refused; and another
  -- field that could be extracted from an object of any kind gives the same values as before.
  pub extract_field-register :
      register k kind_of registry object field (some extract) ≡ ok registry'
      → (obj any : O) (other : String) (values : List String) → kind_of obj ≡ kind_of object
      → (field == other) ≡ false
      → extract_field k kind_of registry any other ≡ ok values
      → (extract_field k kind_of registry' obj field ≡ ok (extract obj))
        × ((index : IndexerFunc O) (again : FieldExtractorRegistry O)
            → register k kind_of registry' obj field index ≢ ok again)
        × (extract_field k kind_of registry' any other ≡ ok values)
  extract_field-register h obj any other values same differ before =
      let (found, refused) = registered-extract_field h obj same in
      (found, refused, other-extract_field h any other values differ before)
