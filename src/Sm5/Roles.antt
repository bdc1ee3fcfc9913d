-- ===== src/Sm5/Roles.antt =====
-- Operand roles: `CapturedOperand::ResolveForRole` and `Operand::ValidateForRole` of
-- src/dxp/sm5/Model.cpp, on the bits of a component mode. The macros of the Windows header that read
-- and write those bits are parameters.
pub mod Masks
pub mod Valid
use direct_xshader_patcher.Base.{
  ℕ, zero, suc, ◌+◌, ◌-◌, ◌*◌, ◌/◌, ◌^◌, List, [], ◌∷◌, Bool, true, false, not, ◌&&◌, ltb, ◌==◌,
  Option, none, some, Result, ok, err, ◌>>◌, require, if◌then◌else◌, bit_and, bit_or,
}
use direct_xshader_patcher.Sm5.Operands.{Operand, operand, OperandHead}

pub data OperandRole : Type 0 where
  source destination : OperandRole

-- `DECODE_D3D10_SB_OPERAND_4_COMPONENT_...` and `ENCODE_D3D10_SB_OPERAND_4_COMPONENT_...`; the
-- second argument of `swizzle_source` is the component.
pub record ComponentFormat : Type 0 where
  pub selection_mode : ℕ → ℕ
  pub component_mask : ℕ → ℕ
  pub select_one : ℕ → ℕ
  pub swizzle_source : ℕ → ℕ → ℕ
  pub encode_mode : ℕ → ℕ
  pub encode_mask : ℕ → ℕ
  pub encode_select : ℕ → ℕ

-- `D3D10_SB_OPERAND_4_COMPONENT_..._MODE`
abbrev pub mask_mode : ℕ
mask_mode = 0

abbrev pub swizzle_mode : ℕ
swizzle_mode = 1

abbrev pub select_mode : ℕ
select_mode = 2

-- `NumComponents::Four` and `OperandType::UAV`
abbrev pub four_components : ℕ
four_components = 2

abbrev pub operand_uav : ℕ
operand_uav = 30

-- A component's bit in a mask.
abbrev pub has_component : ℕ → ℕ → Bool
has_component mask component = not (bit_and mask (2 ^ component) == 0)

-- What the loop over a mask leaves in `swizzle`, `last_component` and `masked_components`.
pub record Packing : Type 0 where
  pub swizzle : ℕ
  pub last_component : ℕ
  pub masked_components : ℕ

-- Why an operand does not fit a role. The texts and the path in them are left out.
pub data RoleError : Type 0 where
  non_mask_destination uav_destination : RoleError
  swizzle_out_of_range : ℕ → RoleError

abbrev pub is_destination : OperandRole → Bool
is_destination destination = true
is_destination source = false

abbrev pub mode_of : Operand → ℕ
mode_of (operand head _ _) = head.component_mode

-- A masked component is packed into the next two bits.
abbrev pub pack_component : ℕ → ℕ → Packing → Packing
pack_component mask comp p =
    if has_component mask comp
    then record {
      swizzle = bit_or p.swizzle (comp * 2 ^ (p.masked_components * 2));
      last_component = comp;
      masked_components = p.masked_components + 1;
    }
    else p

unfoldable pub pack_components : ℕ → ℕ → ℕ → Packing → Packing
pack_components mask zero comp p = p
pack_components mask (suc comps) comp p =
    pack_components mask comps (suc comp) (pack_component mask comp p)

-- The slots from `slot` on repeat the last component.
unfoldable pub fill_slots : ℕ → ℕ → ℕ → ℕ → ℕ
fill_slots zero slot last_component swizzle = swizzle
fill_slots (suc slots) slot last_component swizzle =
    fill_slots slots (suc slot) last_component (bit_or swizzle (last_component * 2 ^ (slot * 2)))

unfoldable pub mask_to_swizzle : ℕ → ℕ
unfolding pack_components fill_slots
mask_to_swizzle mask =
    let packed =
      pack_components mask 4 0
        (record { swizzle = 0; last_component = 0; masked_components = 0 }) in
    fill_slots (4 - packed.masked_components) packed.masked_components packed.last_component
      packed.swizzle

abbrev pub with_mode : Operand → ℕ → Operand
with_mode (operand head entry_list outer) mode =
    operand
      (record {
        type = head.type;
        num_components = head.num_components;
        component_mode = mode;
        modifier = head.modifier;
        source_offset = head.source_offset;
        source_length = head.source_length;
      })
      entry_list outer

module _ (format : ComponentFormat) where
  -- The components that a swizzle reads.
  unfoldable pub swizzle_mask : ℕ → ℕ
  swizzle_mask mode =
      let bit : ℕ → ℕ = λ c. 2 ^ format.swizzle_source mode c in
      bit_or (bit_or (bit_or (bit_or 0 (bit 0)) (bit 1)) (bit 2)) (bit 3)

  -- The mask of the components that a source reads, none for a mode without a meaning.
  unfoldable pub read_mask : ℕ → Option ℕ
  unfolding swizzle_mask
  read_mask mode =
      let selection = format.selection_mode mode in
      if selection == mask_mode
      then some (format.component_mask mode / 2 ^ 4)
      else if selection == select_mode
      then some (2 ^ format.select_one mode)
      else if selection == swizzle_mode
      then some (swizzle_mask mode)
      else none

  -- `result.component_mode` of a source that becomes a destination.
  unfoldable pub destination_mode : ℕ → ℕ
  unfolding read_mask
  destination_mode mode = elim (read_mask mode) [
    | none ↦ mode
    | some mask ↦
        if mask == 0
        then mode
        else bit_or (format.encode_mode mask_mode) (format.encode_mask (mask * 2 ^ 4))
  ]

  -- And of a destination that becomes a source.
  unfoldable pub source_mode : ℕ → ℕ
  unfolding mask_to_swizzle
  source_mode mode =
      let mask = format.component_mask mode in
      if mask == 0
      then mode
      else bit_or (format.encode_mode swizzle_mode) (mask_to_swizzle (mask / 2 ^ 4) * 2 ^ 4)

  -- `role` is what the operand was captured as.
  unfoldable pub resolve_for_role : OperandRole → OperandRole → Operand → Operand
  unfolding destination_mode source_mode
  resolve_for_role source source op = op
  resolve_for_role destination destination op = op
  resolve_for_role source destination op = with_mode op (destination_mode (mode_of op))
  resolve_for_role destination source op = with_mode op (source_mode (mode_of op))

  -- Selectors of a swizzle up to `comp`, none of them behind the last component.
  abbrev pub selectors_fit : ℕ → ℕ → ℕ → Result RoleError (Unit {0})
  selectors_fit mode zero comp = ok tt
  selectors_fit mode (suc comps) comp =
      require (not (ltb 3 (format.swizzle_source mode comp)))
        (RoleError.swizzle_out_of_range (format.swizzle_source mode comp))
      >> selectors_fit mode comps (suc comp)

  unfoldable pub validate_for_role : OperandRole → Operand → Result RoleError (Unit {0})
  validate_for_role role (operand head entry_list outer) =
      let selection = format.selection_mode head.component_mode in
      if not (head.num_components == four_components)
      then ok tt
      else require (not (is_destination role && not (selection == mask_mode)))
          RoleError.non_mask_destination
        >> (if selection == swizzle_mode then selectors_fit head.component_mode 4 0 else ok tt)
        >> require (not (is_destination role && head.type == operand_uav)) RoleError.uav_destination
