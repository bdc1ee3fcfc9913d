-- ===== src/Sm5/Match/Patterns.antt =====
-- `OperandPattern::IndexPatterns` of include/dxp/sm5/step/common/Rule.hpp: the index slots of an
-- operand pattern, which are given one by one or as arrays of typed immediates. A literal is the
-- number that its bits make up, of 32 or of 64 bits.
use direct_xshader_patcher.Base.{
  false, ◌/◌, ◌%◌, ◌^◌, List, ◌++◌, map, not, is_empty, none, some, if◌then◌else◌,
}
use direct_xshader_patcher.Sm5.Operands.{IndexRepresentation, immediate32, immediate64}
use direct_xshader_patcher.Sm5.Match.{
  ImmediateFamily, untyped, u32, i32, f32, u64, i64, f64, OperandIndexPattern, Immediate, variable,
  literal, OperandPattern,
}

abbrev empty_pattern : IndexRepresentation → OperandIndexPattern
empty_pattern representation = record {
  any = false;
  representation = representation;
  immediate_lo = none;
  immediate_hi = none;
  capture = "";
  match_capture = "";
  immediate_lo_variable = "";
  immediate_family = untyped;
}

-- An entry of an array of 32 bits, and of one of 64.
abbrev pub short_pattern : ImmediateFamily → Immediate → OperandIndexPattern
short_pattern family (variable name) = record (empty_pattern immediate32) {
  immediate_lo_variable = name;
  immediate_family = family;
}
short_pattern family (literal bits) = record (empty_pattern immediate32) {
  immediate_lo = some bits;
}

abbrev pub long_pattern : ImmediateFamily → Immediate → OperandIndexPattern
long_pattern family (variable name) = record (empty_pattern immediate64) {
  immediate_lo_variable = name;
  immediate_family = family;
}
long_pattern family (literal bits) = record (empty_pattern immediate64) {
  immediate_lo = some (bits % 2 ^ 32);
  immediate_hi = some (bits / 2 ^ 32);
}

unfoldable pub index_patterns : OperandPattern → List OperandIndexPattern
index_patterns op =
    if not (is_empty op.indices)
    then op.indices
    else map (short_pattern u32) op.immediates_u32
      ++ (map (long_pattern u64) op.immediates_u64
          ++ (map (short_pattern i32) op.immediates_i32
              ++ (map (long_pattern i64) op.immediates_i64
                  ++ (map (short_pattern f32) op.immediates_f32
                      ++ map (long_pattern f64) op.immediates_f64))))
