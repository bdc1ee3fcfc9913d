-- ===== src/CBufferLayout.antt =====
-- src/dxp/CBufferLayout.cpp and the data types of include/dxp/ExportTypes.hpp that it fills: the
-- layout of a constant buffer that a recipe declares, by HLSL packing. Offsets are `uint32_t` and
-- wrap. `double` is a parameter, of which only the constants 0.0 and 1.0 are used. The converted
-- YAML value (`ToMetaValue` of a glaze value) is what a field's data carries here.
pub mod Packing
pub mod Invariant
pub mod Layout
use direct_xshader_patcher.Base.{
  ℕ, ◌+◌, ◌-◌, ◌*◌, ◌/◌, ◌%◌, ◌^◌, max, String, List, [], ◌∷◌, ◌++◌, Option, none, some, Bool, true,
  false, not, ◌&&◌, length, replicate, leb, ltb, ◌==◌, if◌then◌else◌, str_eq, Result, ok, err,
  ◌>>=◌, ◌>>◌, require, map_err, is_absent,
}

pub data ComponentType : Type 0 where
  invalid i1 i16 u16 i32 u32 i64 u64 f16 f32 f64 : ComponentType
  snorm_f16 unorm_f16 snorm_f32 unorm_f32 snorm_f64 unorm_f64 : ComponentType
  packed_s8x32 packed_u8x32 u8 i8 f8_e4m3fn f8_e5m2 last_entry : ComponentType

-- What the code uses of `double`: the constants 0.0 and 1.0.
pub record DoubleConstants (Double : Type 0) : Type 0 where
  pub zero_point : Double
  pub one_point : Double

-- The messages of `fail`, each after the name of the cbuffer.
pub data Failure : Type 0 where
  empty_name : Failure
  duplicate_field : String → Failure
  bad_type : String → Failure
  bad_width : String → Failure
  misaligned_offset : String → Failure
  overlapping_offset : String → ℕ → Failure
  straddles_row : String → ℕ → Failure
  default_entries : String → Failure
  default_form : String → Failure
  default_count : String → ℕ → ℕ → Failure
  size_too_small : ℕ → ℕ → Failure

pub record LayoutError : Type 0 where
  pub handle : String
  pub message : Failure

abbrev pub u32_mod : ℕ
u32_mod = 2 ^ 32

abbrev pub row_bytes : ℕ
row_bytes = 16

abbrev pub component_bytes : ℕ
component_bytes = 4

pub align_up : ℕ → ℕ → ℕ
align_up value alignment = ((value + alignment - 1) % u32_mod) / alignment * alignment

-- Whether a field of that many bytes at that offset crosses the end of a row.
abbrev pub straddles : ℕ → ℕ → Bool
straddles offset bytes = ltb row_bytes (offset % row_bytes + bytes)

abbrev pub is_packable : ComponentType → Bool
is_packable ComponentType.f32 = true
is_packable ComponentType.u32 = true
is_packable ComponentType.i32 = true
is_packable _ = false

-- The offset of a field: the one that is written, or the next that does not straddle a row.
pub place : String → Option ℕ → ℕ → ℕ → Result Failure ℕ
unfolding align_up
place name (some offset) cursor bytes = do
  require (offset % component_bytes == 0) (misaligned_offset name)
  require (not (ltb offset cursor)) (overlapping_offset name offset)
  ok offset
place name none cursor bytes =
    ok (if straddles cursor bytes then align_up cursor row_bytes else cursor)

module _ (Double : Type 0) where
  mutual
    pub data MetaValue : Type 0 where
      null : MetaValue
      boolean : Bool → MetaValue
      number : Double → MetaValue
      text : String → MetaValue
      array : MetaArray → MetaValue
      object : MetaObject → MetaValue

    pub data MetaArray : Type 0 where
      nil : MetaArray
      cons : MetaValue → MetaArray → MetaArray

    pub data MetaObject : Type 0 where
      end : MetaObject
      member : String → MetaValue → MetaObject → MetaObject

  pub record CBufferFieldData : Type 0 where
    pub name : String
    pub type : ComponentType
    pub width : ℕ
    pub offset : Option ℕ
    pub default_value : MetaValue
    pub meta : MetaValue

  pub record CBufferField : Type 0 where
    pub name : String
    pub type : ComponentType
    pub width : ℕ
    pub offset : ℕ
    pub default_value : List Double
    pub meta : Option MetaValue

  pub record CBufferLayout : Type 0 where
    pub type_name : String
    pub size_in_bytes : ℕ
    pub fields : List CBufferField

module _ {Double : Type 0} where
  -- `ToOptionalMetaValue`
  pub to_optional_meta : MetaValue Double → Option (MetaValue Double)
  to_optional_meta null = none
  to_optional_meta m = some m

  -- `CBufferLayout::FindField`
  pub find_field : String → List (CBufferField Double) → Option (CBufferField Double)
  find_field name [] = none
  find_field name (f ∷ fs) = if str_eq f.name name then some f else find_field name fs

  -- One number for each entry of a list, or the message at the first that is none.
  pub numbers : String → MetaArray Double → Result Failure (List Double)
  numbers name nil = ok []
  numbers name (cons (number x) rest) = numbers name rest >>= λ xs. ok (x ∷ xs)
  numbers name (cons _ rest) = err (default_entries name)

  pub default_values :
      DoubleConstants Double → String → ℕ → MetaValue Double → Result Failure (List Double)
  unfolding numbers
  default_values c name width null = ok []
  default_values c name width (boolean b) =
      ok (replicate width (if b then c.one_point else c.zero_point))
  default_values c name width (number x) = ok (replicate width x)
  default_values c name width (array xs) = do
    values ← numbers name xs
    require (length values == width) (default_count name (length values) width)
    ok values
  default_values c name width _ = err (default_form name)

  -- The tests that come before the offset is chosen.
  pub check_field :
      List (CBufferField Double) → String → ComponentType → ℕ → Result Failure (Unit {0})
  unfolding find_field
  check_field fields name type width = do
    require (not (str_eq name "")) empty_name
    require (is_absent (find_field name fields)) (duplicate_field name)
    require (is_packable type) (bad_type name)
    require (not (ltb 4 width)) (bad_width name)

  -- One round of the loop: the field, and the cursor behind it.
  pub build_field :
      DoubleConstants Double
      → List (CBufferField Double)
      → ℕ
      → CBufferFieldData Double
      → Result Failure (CBufferField Double × ℕ)
  unfolding place default_values to_optional_meta check_field
  build_field c fields cursor data_in = do
    let name = data_in.name
    let width = if data_in.width == 0 then 1 else data_in.width
    check_field fields name data_in.type width
    let bytes = width * component_bytes
    offset ← place name data_in.offset cursor bytes
    require (not (straddles offset bytes)) (straddles_row name offset)
    values ← default_values c name width data_in.default_value
    ok (
      record {
        name = name;
        type = data_in.type;
        width = width;
        offset = offset;
        default_value = values;
        meta = to_optional_meta data_in.meta;
      },
      (offset + bytes) % u32_mod,
    )

  pub build_fields :
      DoubleConstants Double
      → List (CBufferField Double)
      → ℕ
      → List (CBufferFieldData Double)
      → Result Failure (List (CBufferField Double) × ℕ)
  unfolding build_field
  build_fields c fields cursor [] = ok (fields, cursor)
  build_fields c fields cursor (data_in ∷ rest) =
      build_field c fields cursor data_in >>= λ r. build_fields c (fields ++ r.0 ∷ []) r.1 rest

  -- The end of the function: the size that is declared, or the packed one.
  unfoldable pub finish_layout :
      String → ℕ → List (CBufferField Double) × ℕ → Result Failure (CBufferLayout Double)
  unfolding align_up
  finish_layout type_name declared_size r = do
    let packed_size = max row_bytes (align_up r.1 row_bytes)
    require (not (not (declared_size == 0) && ltb declared_size r.1))
        (size_too_small declared_size r.1)
    ok (record {
      type_name = type_name;
      size_in_bytes = if declared_size == 0 then packed_size else declared_size;
      fields = r.0;
    })

  unfoldable pub build_cbuffer_layout :
      DoubleConstants Double
      → String
      → String
      → ℕ
      → List (CBufferFieldData Double)
      → Result LayoutError (CBufferLayout Double)
  unfolding build_fields finish_layout
  build_cbuffer_layout c handle type_name declared_size datas =
      let named = if str_eq type_name "" then handle else type_name in
      map_err (λ m. record { handle = handle; message = m })
        (build_fields c [] 0 datas >>= finish_layout named declared_size)
