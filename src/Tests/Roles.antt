-- ===== src/Tests/Roles.antt =====
-- Captured operands resolved for the other role, with the macros of the Windows header as they are.
use direct_xshader_patcher.Base.{ℕ, ◌+◌, ◌*◌, ◌/◌, ◌%◌, ◌^◌, ok, ◌≡◌, refl, ap, arith}
use direct_xshader_patcher.Sm5.Operands.{Operand, operand, no_entries, not_relative}
use direct_xshader_patcher.Sm5.Roles.{
  source, destination, ComponentFormat, resolve_for_role, validate_for_role, mode_of,
}
use direct_xshader_patcher.Sm5.Roles.Masks.{
  HasComponents, slot_component, resolve_for_role-source, resolve_for_role-inverse,
}
use direct_xshader_patcher.Sm5.Roles.Valid.{
  expected_verdict, head_of, validate_for_role_lem, validate-resolve_for_role,
}

abbrev windows_components : ComponentFormat
windows_components = record {
  selection_mode = λ t. t / 2 ^ 2 % 4;
  component_mask = λ t. t / 2 ^ 4 % 2 ^ 4 * 2 ^ 4;
  select_one = λ t. t / 2 ^ 4 % 4;
  swizzle_source = λ t c. t / 2 ^ (4 + 2 * (c % 4)) % 4;
  encode_mode = λ v. v % 4 * 2 ^ 2;
  encode_select = λ c. c % 4 * 2 ^ 4;
  encode_mask = λ t. t / 2 ^ 4 % 2 ^ 4 * 2 ^ 4;
}

windows_components-HasComponents : HasComponents windows_components
windows_components-HasComponents = record {
  mode_bits = λ t. refl;
  mask_bits = λ t. refl;
  select_bits = λ t. refl;
  swizzle_bits =
      λ t c here. let e : c % 4 ≡ c = omega (arith, here) in ap (λ k. t / 2 ^ (4 + 2 * k) % 4) e;
  mode_put = λ v small. omega (arith, small);
  mask_put = λ t. refl;
}

abbrev register_with : ℕ → ℕ → Operand
register_with type mode =
    operand
      (record {
        type = type;
        num_components = 2;
        component_mode = mode;
        modifier = 0;
        source_offset = 0;
        source_length = 0;
      })
      no_entries not_relative

-- A destination `.yw` is read as `.ywww`.
resolve_for_role-source_example :
    (windows_components.selection_mode
        (mode_of (resolve_for_role windows_components destination source (register_with 0 0xA0)))
      ≡ 1)
    × (windows_components.swizzle_source
          (mode_of (resolve_for_role windows_components destination source (register_with 0 0xA0)))
          2
        ≡ slot_component (mode_of (register_with 0 0xA0) / 2 ^ 4 % 2 ^ 4) 2)
resolve_for_role-source_example =
    resolve_for_role-source windows_components (register_with 0 0xA0) 2
      windows_components-HasComponents (omega arith) (omega arith)

resolved_mode :
    mode_of (resolve_for_role windows_components destination source (register_with 0 0xA0)) ≡ 0xFD4
unfolding resolve_for_role
resolved_mode = refl

resolve_for_role-inverse_example :
    resolve_for_role windows_components source destination
      (resolve_for_role windows_components destination source (register_with 0 0xA0))
    ≡ register_with 0 0xA0
resolve_for_role-inverse_example =
    resolve_for_role-inverse windows_components (register_with 0 0xA0) 10
      windows_components-HasComponents (omega arith) (omega arith) refl

validate_for_role_lem_example :
    validate_for_role windows_components destination (register_with 30 0xF0)
    ≡ expected_verdict destination (head_of (register_with 30 0xF0))
validate_for_role_lem_example =
    validate_for_role_lem windows_components destination (register_with 30 0xF0)
      windows_components-HasComponents

-- A source that reads `.zzxx`, as a destination.
validate-resolve_for_role_example :
    validate_for_role windows_components destination
      (resolve_for_role windows_components source destination (register_with 0 0xA4))
    ≡ ok tt
validate-resolve_for_role_example =
    validate-resolve_for_role windows_components (register_with 0 0xA4)
      windows_components-HasComponents (omega arith) refl
