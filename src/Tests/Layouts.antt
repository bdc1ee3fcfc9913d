-- ===== src/Tests/Layouts.antt =====
-- Layouts of small constant buffers.
use direct_xshader_patcher.Base.{
  ℕ, ◌+◌, ◌-◌, ◌^◌, ◌%◌, ◌<◌, ◌≤◌, String, List, [], ◌∷◌, Option, none, some, ◌≡◌, ◌≢◌, ◌⊎◌, refl,
  arith, ok,
}
use direct_xshader_patcher.CBufferLayout.{
  ComponentType, DoubleConstants, MetaValue, CBufferFieldData, CBufferField, CBufferLayout,
  build_cbuffer_layout, finish_layout,
}
use direct_xshader_patcher.CBufferLayout.Layout.{
  IsLayout, build_cbuffer_layout-IsLayout, finish_layout-size,
}

-- `double` as the two constants need it.
abbrev constants : DoubleConstants ℕ
constants = record { zero_point = 0; one_point = 1 }

abbrev declared : String → ℕ → Option ℕ → CBufferFieldData ℕ
declared name width offset = record {
  name = name;
  type = ComponentType.f32;
  width = width;
  offset = offset;
  default_value = MetaValue.null;
  meta = MetaValue.null;
}

abbrev built : String → ℕ → ℕ → CBufferField ℕ
built name width offset = record {
  name = name;
  type = ComponentType.f32;
  width = width;
  offset = offset;
  default_value = [];
  meta = none;
}

-- `float3 a; float2 b; float4 c;`, of which `b` would cross a row.
abbrev three_fields : List (CBufferFieldData ℕ)
three_fields = declared "a" 3 none ∷ declared "b" 2 none ∷ declared "c" 4 (some 32) ∷ []

abbrev three_layout : CBufferLayout ℕ
three_layout = record {
  type_name = "cb";
  size_in_bytes = 48;
  fields = built "a" 3 0 ∷ built "b" 2 16 ∷ built "c" 4 32 ∷ [];
}

three_built : build_cbuffer_layout constants "cb" "" 0 three_fields ≡ ok three_layout
unfolding build_cbuffer_layout
three_built = refl

build_cbuffer_layout-IsLayout_example : IsLayout three_fields three_layout
build_cbuffer_layout-IsLayout_example =
    build_cbuffer_layout-IsLayout constants "cb" "" 0 three_fields three_layout (omega arith)
      (tt, (tt, (omega arith, tt))) three_built

three_finished : finish_layout "cb" 0 (three_layout.fields, 48) ≡ ok three_layout
unfolding finish_layout
three_finished = refl

finish_layout-size_example :
    (three_layout.fields ≡ three_layout.fields)
    × (48 ≤ three_layout.size_in_bytes)
    × ((◌≡◌ {A = ℕ} 0 0)
          × (three_layout.size_in_bytes % 16 ≡ 0)
          × (0 < three_layout.size_in_bytes)
          × ((three_layout.size_in_bytes ≡ 16) ⊎ (three_layout.size_in_bytes < 48 + 16))
        ⊎ (◌≢◌ {A = ℕ} 0 0) × (three_layout.size_in_bytes ≡ 0))
finish_layout-size_example =
    finish_layout-size "cb" 0 (three_layout.fields, 48) (omega arith) three_finished

-- The cursor is a `uint32_t`: a field that ends at 2^32 sets it back to 0, and a declared size of 8
-- reaches the end of the fields.
end_wraps :
    build_cbuffer_layout constants "cb" "Last" 8 (declared "x" 1 (some (2 ^ 32 - 4)) ∷ [])
    ≡ ok (record { type_name = "Last"; size_in_bytes = 8; fields = built "x" 1 (2 ^ 32 - 4) ∷ [] })
unfolding build_cbuffer_layout
end_wraps = refl
