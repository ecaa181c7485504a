-- ===== src/FormatMapping/Tests.antt =====
-- The theorem on the pixel formats, on those of a camera.
use physicar_ros.Base.{ℕ, false, List, [], ◌∷◌, All}
use physicar_ros.FormatMapping.{
  PixelFormat, mjpeg, yuyv, r16, other, HasEncoding, get_ros_encoding, get_common_stream_formats,
  get_common_stream_formats-HasEncoding,
}

abbrev offered : List (PixelFormat × ℕ)
offered = (yuyv, 1) ∷ (r16, 2) ∷ (other 0, 3) ∷ (mjpeg, 4) ∷ []

get_common_stream_formats-HasEncoding_example :
    All (λ p. HasEncoding (get_ros_encoding false p.0)) (get_common_stream_formats false offered)
get_common_stream_formats-HasEncoding_example = get_common_stream_formats-HasEncoding false offered
