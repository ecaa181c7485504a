-- ===== src/FormatMapping.antt =====
-- physicar_camera/src/format_mapping.cpp: the pixel formats that can be published, and their encodings.
-- The formats are libcamera's by their names there, with `other` for one that the code does not name;
-- the encodings are those of sensor_msgs/image_encodings by their names. `recent` is
-- LIBCAMERA_VER_GE(0, 3, 0).
mod Tests
use physicar_ros.Base.{
  ℕ, ◌≡◌, Bool, true, false, Option, none, some, List, [], ◌∷◌, if◌then◌else◌, if-case, All,
}

pub data PixelFormat : Type 0 where
  r8 r16 rgb888 bgr888 rgb161616 bgr161616 xrgb8888 xbgr8888 : PixelFormat
  argb8888 abgr8888 yuyv uyvy nv21 nv24 srggb8 sgrbg8 : PixelFormat
  sgbrg8 sbggr8 srggb16 sgrbg16 sgbrg16 sbggr16 mjpeg : PixelFormat
  other : ℕ → PixelFormat

pub data Encoding : Type 0 where
  enc_mono8 enc_mono16 enc_bgr8 enc_rgb8 enc_bgr16 enc_rgb16 : Encoding
  enc_bgra8 enc_rgba8 enc_yuv422_yuy2 enc_yuv422 enc_nv21 enc_nv24 : Encoding
  enc_bayer_rggb8 enc_bayer_grbg8 enc_bayer_gbrg8 enc_bayer_bggr8 enc_bayer_rggb16
        enc_bayer_grbg16 :
      Encoding
  enc_bayer_gbrg16 enc_bayer_bggr16 enc_jpeg : Encoding

pub data FormatType : Type 0 where
  format_none format_raw format_compressed : FormatType

abbrev from : Bool → Encoding → Option Encoding
from true e = some e
from false e = none

unfoldable pub map_format_raw : Bool → PixelFormat → Option Encoding
map_format_raw recent r8 = some enc_mono8
map_format_raw recent r16 = from recent enc_mono16
map_format_raw recent rgb888 = some enc_bgr8
map_format_raw recent bgr888 = some enc_rgb8
map_format_raw recent rgb161616 = from recent enc_bgr16
map_format_raw recent bgr161616 = from recent enc_rgb16
map_format_raw recent xrgb8888 = some enc_bgra8
map_format_raw recent xbgr8888 = some enc_rgba8
map_format_raw recent argb8888 = some enc_bgra8
map_format_raw recent abgr8888 = some enc_rgba8
map_format_raw recent yuyv = some enc_yuv422_yuy2
map_format_raw recent uyvy = some enc_yuv422
map_format_raw recent nv21 = some enc_nv21
map_format_raw recent nv24 = some enc_nv24
map_format_raw recent srggb8 = some enc_bayer_rggb8
map_format_raw recent sgrbg8 = some enc_bayer_grbg8
map_format_raw recent sgbrg8 = some enc_bayer_gbrg8
map_format_raw recent sbggr8 = some enc_bayer_bggr8
map_format_raw recent srggb16 = some enc_bayer_rggb16
map_format_raw recent sgrbg16 = some enc_bayer_grbg16
map_format_raw recent sgbrg16 = some enc_bayer_gbrg16
map_format_raw recent sbggr16 = some enc_bayer_bggr16
map_format_raw recent f = none

unfoldable pub map_format_compressed : PixelFormat → Option Encoding
map_format_compressed mjpeg = some enc_jpeg
map_format_compressed f = none

abbrev or_compressed : Option Encoding → Option Encoding → Option Encoding
or_compressed (some e) c = some e
or_compressed none c = c

-- `none` is the empty string.
unfoldable pub get_ros_encoding : Bool → PixelFormat → Option Encoding
get_ros_encoding recent f = or_compressed (map_format_raw recent f) (map_format_compressed f)

abbrev type_of : Option Encoding → Option Encoding → FormatType
type_of (some e) c = format_raw
type_of none (some e) = format_compressed
type_of none none = format_none

unfoldable pub format_type : Bool → PixelFormat → FormatType
format_type recent f = type_of (map_format_raw recent f) (map_format_compressed f)

abbrev is_supported : FormatType → Bool
is_supported format_none = false
is_supported format_raw = true
is_supported format_compressed = true

-- The formats of a camera with their size ranges; no format stands there twice. The result is a
-- `std::map`, whose order is not that of the list.
unfoldable pub get_common_stream_formats {ℓ} :
    {R : Type ℓ} → Bool → List (PixelFormat × R) → List (PixelFormat × R)
get_common_stream_formats recent [] = []
get_common_stream_formats recent ((f, r) ∷ fs) =
    let rest = get_common_stream_formats recent fs in
    if is_supported (format_type recent f) then (f, r) ∷ rest else rest

abbrev pub HasEncoding : Option Encoding → Type 0
HasEncoding none = ⊥
HasEncoding (some e) = Unit

supported :
    (r c : Option Encoding) → is_supported (type_of r c) ≡ true → HasEncoding (or_compressed r c)
supported (some e) c h = tt
supported none (some e) h = tt
supported none none h = absurd (cc)

-- Every format that is offered has an encoding to publish it with.
pub get_common_stream_formats-HasEncoding {ℓ} :
    {R : Type ℓ} (recent : Bool) (fs : List (PixelFormat × R))
    → All (λ p. HasEncoding (get_ros_encoding recent p.0)) (get_common_stream_formats recent fs)
unfolding get_common_stream_formats get_ros_encoding format_type
get_common_stream_formats-HasEncoding recent [] = tt
get_common_stream_formats-HasEncoding recent ((f, r) ∷ fs) =
    if-case (All (λ p. HasEncoding (get_ros_encoding recent p.0)))
      (is_supported (format_type recent f)) _ _
      (λ e. (
        supported (map_format_raw recent f) (map_format_compressed f) e,
        get_common_stream_formats-HasEncoding recent fs,
      ))
      (λ e. get_common_stream_formats-HasEncoding recent fs)
