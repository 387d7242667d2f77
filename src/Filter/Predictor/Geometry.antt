-- ===== src/Filter/Predictor/Geometry.antt =====
-- `predictor_geometry` on every `DecodeParams`.
use Prim.Native.Nat.{max}
use native.Mathlib.Nat.{mul-le-mul}
use pdfv.Base.{ℕ, ◌+◌, ◌*◌, ◌/◌, ◌≤◌, ◌<◌, ◌||◌, ◌==◌, if◌then◌else◌, ◌≡◌, ◌≢◌, arith}
use pdfv.Error.{ok, err, text, stream_decode, u64_modulus}
use pdfv.Filter.Params.{DecodeParams}
use pdfv.Filter.Predictor.{predictor_geometry}

-- The widths of the fields: `u16`, `u16` and `u32`.
pub record InRange (params : DecodeParams) : Type 0 where
  pub colors : params.colors < 65536
  pub bits : params.bits_per_component < 65536
  pub columns : params.columns < 4294967296

products :
    (c b n : ℕ)
    → c ≤ 65535
    → b ≤ 65535
    → n ≤ 4294967295
    → (c * b ≤ 65535 * 65535) × (c * b * n ≤ 65535 * 65535 * 4294967295)
products c b n p q r = let m = mul-le-mul p q in (m, mul-le-mul m r)

-- For parameters in the ranges of their types, no check of the arithmetic can fail: the geometry is an error exactly for a zero field, and else
-- the bits of a row and of a pixel in whole bytes.
pub predictor_geometry_lem :
    (params : DecodeParams)
    → InRange params
    → predictor_geometry params ≡ (
        if params.colors == 0 || params.bits_per_component == 0 || params.columns == 0
        then err (stream_decode (text "invalid predictor geometry"))
        else ok (
          (params.colors * params.bits_per_component * params.columns + 7) / 8,
          max ((params.colors * params.bits_per_component + 7) / 8) 1,
        ))
unfolding predictor_geometry
predictor_geometry_lem params h =
    let (pixel, row) =
      products params.colors params.bits_per_component params.columns (omega arith) (omega arith)
        (omega arith) in
    ground arith

product_pos : (c b n : ℕ) → c ≢ 0 → b ≢ 0 → n ≢ 0 → 0 < c * b * n
product_pos c b n p q r =
    mul-le-mul {n₁ = 1} {m₁ = 1} (mul-le-mul {n₁ = 1} {m₁ = 1} (omega arith) (omega arith))
      (omega arith)

pub predictor_geometry-bounds :
    (params : DecodeParams) (row_bytes bytes_per_pixel : ℕ)
    → predictor_geometry params ≡ ok (row_bytes, bytes_per_pixel)
    → (0 < row_bytes) × (0 < bytes_per_pixel) × (row_bytes + 1 < u64_modulus)
unfolding predictor_geometry
predictor_geometry-bounds params row_bytes bytes_per_pixel h =
    ground (arith, product_pos params.colors params.bits_per_component params.columns)
