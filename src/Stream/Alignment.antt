-- ===== src/Stream/Alignment.antt =====
-- Which parameters a filter gets.
use pdfv.Base.{
  ℕ, zero, suc, ◌+◌, ◌<◌, Bytes, Bool, true, false, none, some, List, [], ◌∷◌, ◌≡◌, refl, arith,
  length,
}
use pdfv.Name.{codes, bytes_eq}
use pdfv.Filter.Params.{DecodeParams, default_params}
use pdfv.Cos.{name, array, dictionary, CosArray, nil, cons, Dictionary, get, array_get}
use pdfv.Stream.{
  matches, is_identity_crypt_filter, filter_names, stream_filters, decode_params_from_dictionary,
  params_of, params_list, stream_decode_params, params_at,
}

module _ {F : Type 0} where
  -- The parameters of the entry at an index, and the default where there is none.
  abbrev pub declared_params : CosArray F → ℕ → DecodeParams
  declared_params values i = elim (array_get values i) [
    | none ↦ default_params
    | some v ↦ params_of v
  ]

  params_list-at :
      (count : ℕ) (values : CosArray F) (i : ℕ)
      → i < count
      → params_at (params_list count values) i ≡ declared_params values i
  unfolding params_list
  params_list-at zero values i h = elim h [ ]
  params_list-at (suc count) nil i h = refl
  params_list-at (suc count) (cons v values) zero h = refl
  params_list-at (suc count) (cons v values) (suc i) h = params_list-at count values i (omega arith)

  abbrev pub name_array : List Bytes → CosArray F
  name_array [] = nil
  name_array (n ∷ names) = cons (name n) (name_array names)

filter_names-plain :
    (F : Type 0) (identity : ℕ → Bool) (index : ℕ) (names : List Bytes)
    → ((i : ℕ) → identity i ≡ false)
    → filter_names {F = F} identity index (name_array names) ≡ names
unfolding filter_names
filter_names-plain F identity index [] h = refl
filter_names-plain F identity index (n ∷ names) h =
    rw (h index, filter_names-plain F identity (index + 1) names h)

module _ {F : Type 0} where
  -- With arrays of filters and of parameters, and no identity crypt filter, the filters are the
  -- names in their order, and each has the parameters at its own index.
  pub aligned_without_crypt :
      (d : Dictionary F) (names : List Bytes) (params : CosArray F)
      → get (codes "Filter") d ≡ some (array (name_array names))
      → get (codes "DecodeParms") d ≡ some (array params)
      → ((i : ℕ) → is_identity_crypt_filter d i ≡ false)
      → (i : ℕ) → i < length names
      → (stream_filters d ≡ names)
        × (params_at (stream_decode_params d (length names)) i ≡ declared_params params i)
  unfolding stream_filters stream_decode_params
  aligned_without_crypt d names params e k plain i h = (
    rw e (filter_names-plain F (is_identity_crypt_filter d) 0 names plain),
    rw k (params_list-at (length names) params i h),
  )

  -- An identity crypt filter before another filter is dropped from the filters and not from the
  -- parameters, so the other filter gets the crypt filter's parameters and its own are lost.
  pub misaligned_after_crypt :
      (d crypt own : Dictionary F) (filter : Bytes)
      → get (codes "Filter") d ≡ some (array (name_array (codes "Crypt" ∷ filter ∷ [])))
      → get (codes "DecodeParms") d
        ≡ some (array (cons (dictionary crypt) (cons (dictionary own) nil)))
      → get (codes "Name") crypt ≡ some (name (codes "Identity"))
      → matches filter "Crypt" ≡ false
      → (stream_filters d ≡ filter ∷ [])
        × (stream_decode_params d (length (stream_filters d))
            ≡ decode_params_from_dictionary crypt ∷ [])
  unfolding stream_filters stream_decode_params
  misaligned_after_crypt d crypt own filter e k i c =
      let first : is_identity_crypt_filter d 0 ≡ true =
        unfold is_identity_crypt_filter bytes_eq in rw (e, k, i) in
      let second : is_identity_crypt_filter d 1 ≡ false =
        unfold is_identity_crypt_filter in rw (e, c) in
      let kept : stream_filters d ≡ filter ∷ [] = rw e (rw (first, second)) in (kept, rw (kept, k))
