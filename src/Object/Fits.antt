-- ===== src/Object/Fits.antt =====
-- Objects within the limits, with numbers in their ranges and dictionaries whose keys ascend.
use pdfv.Base.{ℕ, suc, ◌≤◌, Bytes, ◌≡◌, refl, arith, true, length}
use pdfv.Float.{Float}
use pdfv.Limits.{ResourceLimits}
use pdfv.Cos.{
  CosObject, null, boolean, integer, real, name, string, array, dictionary, stream, reference,
  CosArray, nil, cons, Dictionary, empty, entry, insert, dict_len, push, array_len,
}
use pdfv.Cos.Laws.{IsSorted}
use pdfv.Object.Numbers.{IsI64, IsKey}

module _ (float : Float) (limits : ResourceLimits) where
  unfoldable mutual
    -- An object at a depth of nesting.
    pub Fits : ℕ → CosObject float.F64 → Type 0
    Fits depth null = Unit
    Fits depth (boolean b) = Unit
    Fits depth (integer value) = IsI64 value
    Fits depth (real value) = float.is_finite value ≡ true
    Fits depth (name bytes) = length bytes ≤ limits.max_name_bytes
    Fits depth (string bytes) = length bytes ≤ limits.max_string_bytes
    Fits depth (array values) =
        (array_len values ≤ limits.max_array_len) × FitsArray (suc depth) values
    Fits depth (dictionary d) =
        IsSorted d × (dict_len d ≤ limits.max_dict_entries) × FitsEntries (suc depth) d
    Fits depth (stream d s) = ⊥
    Fits depth (reference key) = IsKey key

    -- The elements of an array, whose depth is within the limit.
    pub FitsArray : ℕ → CosArray float.F64 → Type 0
    FitsArray depth nil = Unit
    FitsArray depth (cons value values) =
        (depth ≤ limits.max_object_depth) × Fits depth value × FitsArray depth values

    pub FitsEntries : ℕ → Dictionary float.F64 → Type 0
    FitsEntries depth empty = Unit
    FitsEntries depth (entry key value d) =
        (length key ≤ limits.max_name_bytes)
        × (depth ≤ limits.max_object_depth)
        × Fits depth value
        × FitsEntries depth d

  pub FitsArray-push :
      (depth : ℕ) (values : CosArray float.F64) (value : CosObject float.F64)
      → FitsArray depth values
      → depth ≤ limits.max_object_depth
      → Fits depth value
      → FitsArray depth (push values value)
  unfolding Fits push
  FitsArray-push depth nil value h d f = (d, f, tt)
  FitsArray-push depth (cons v values) value (d', f', h) d f =
      (d', f', FitsArray-push depth values value h d f)

  pub FitsEntries-insert :
      (depth : ℕ) (key : Bytes) (value : CosObject float.F64) (d : Dictionary float.F64)
      → FitsEntries depth d
      → length key ≤ limits.max_name_bytes
      → depth ≤ limits.max_object_depth
      → Fits depth value
      → FitsEntries depth (insert key value d)
  unfolding Fits insert
  FitsEntries-insert depth key value empty h k d f = (k, d, f, tt)
  FitsEntries-insert depth key value (entry j v rest) (k', d', f', h) k d f =
      ground (arith, FitsEntries-insert depth key value rest)

  pub array_len-push :
      (values : CosArray float.F64) (value : CosObject float.F64)
      → array_len (push values value) ≡ suc (array_len values)
  unfolding push
  array_len-push nil value = refl
  array_len-push (cons v values) value = omega (arith, array_len-push values value)
