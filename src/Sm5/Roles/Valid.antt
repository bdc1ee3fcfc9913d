-- ===== src/Sm5/Roles/Valid.antt =====
-- What `ValidateForRole` accepts, and that a resolved operand is accepted.
use direct_xshader_patcher.Base.{
  ℕ, zero, suc, ◌+◌, ◌/◌, ◌%◌, ◌^◌, ◌≤◌, ◌<◌, Bool, Bool-cases, true, false, not, ◌&&◌, ltb, ◌==◌,
  some, Result, ok, err, ◌>>◌, require, if◌then◌else◌, bit_or, ◌≡◌, refl, ◌∙◌, inl, inr, arith,
}
use direct_xshader_patcher.Base.Bits.{bit_or-right}
use native.Mathlib.Nat.{one-le-pow}
use direct_xshader_patcher.Sm5.Operands.{Operand, operand, OperandHead}
use direct_xshader_patcher.Sm5.Roles.{
  OperandRole, source, destination, ComponentFormat, RoleError, non_mask_destination,
  uav_destination, is_destination, selectors_fit, validate_for_role, destination_mode, read_mask,
  swizzle_mask, resolve_for_role, mode_of,
}
use direct_xshader_patcher.Sm5.Roles.Masks.{
  HasComponents, destination_mode-masked, read_mask-swizzle,
}

abbrev pub head_of : Operand → OperandHead
head_of (operand head _ _) = head

-- What fits a destination: an operand without four components, or one with a mask that is no
-- unordered access view. A source always fits.
abbrev pub expected_verdict : OperandRole → OperandHead → Result RoleError (Unit {0})
expected_verdict source head = ok tt
expected_verdict destination head =
    if not (head.num_components == 2)
    then ok tt
    else if not (head.component_mode / 2 ^ 2 % 4 == 0)
    then err non_mask_destination
    else if head.type == 30
    then err uav_destination
    else ok tt

==_eq : (a b : ℕ) → (a == b) ≡ true → a ≡ b
==_eq a b h = ground arith

either_way : (t : Bool) → ◌≡◌ {A = Result RoleError (Unit {0})} (if t then ok tt else ok tt) (ok tt)
either_way true = refl
either_way false = refl

both_tests :
    (four in_mask view : Bool)
    → (if not four
        then ok tt
        else require (not (not in_mask)) non_mask_destination
          >> ok tt
          >> require (not view) uav_destination)
      ≡ (if not four
          then ok tt
          else if not in_mask
          then err non_mask_destination
          else if view
          then err uav_destination
          else ok tt)
both_tests false in_mask view = refl
both_tests true false view = refl
both_tests true true true = refl
both_tests true true false = refl

module _ (format : ComponentFormat) (bits : HasComponents format) where
  -- A selector has two bits, and is never out of range.
  selectors_fit-always :
      (mode comps comp : ℕ) → comps + comp ≤ 4 → selectors_fit format mode comps comp ≡ ok tt
  selectors_fit-always mode zero comp inside = refl
  selectors_fit-always mode (suc comps) comp inside =
      let fits : not (ltb 3 (format.swizzle_source mode comp)) ≡ true =
        ground (arith, bits.swizzle_bits mode comp (omega (arith, inside))) in
      rw fits (selectors_fit-always mode comps (suc comp) (omega (arith, inside)))

  selectors_checked :
      (mode : ℕ) (swizzled : Bool)
      → (if swizzled then selectors_fit format mode 4 0 else ok tt) ≡ ok tt
  selectors_checked mode true = selectors_fit-always mode 4 0 (omega arith)
  selectors_checked mode false = refl

  verdict :
      (role : OperandRole) (head : OperandHead) (swizzled : Result RoleError (Unit {0}))
      → swizzled ≡ ok tt
      → (if not (head.num_components == 2)
          then ok tt
          else require
              (not (is_destination role && not (head.component_mode / 2 ^ 2 % 4 == 0)))
              non_mask_destination
            >> swizzled
            >> require (not (is_destination role && head.type == 30)) uav_destination)
        ≡ expected_verdict role head
  verdict source head swizzled e = rw e (either_way (not (head.num_components == 2)))
  verdict destination head swizzled e = rw e (
      both_tests (head.num_components == 2) (head.component_mode / 2 ^ 2 % 4 == 0)
        (head.type == 30))

-- `ValidateForRole` accepts every source, and a destination just when it does not have four
-- components, or is in mask mode and no unordered access view. It never finds a selector out of
-- range, and tests the mode before the view.
pub validate_for_role_lem :
    (format : ComponentFormat) (role : OperandRole) (op : Operand)
    → HasComponents format
    → validate_for_role format role op ≡ expected_verdict role (head_of op)
unfolding validate_for_role
validate_for_role_lem format role (operand head entry_list outer) bits =
    let selection = bits.mode_bits head.component_mode in
    rw selection (
      verdict format bits role head _
        (selectors_checked format bits head.component_mode (head.component_mode / 2 ^ 2 % 4 == 1)))

module _ (format : ComponentFormat) (bits : HasComponents format) where
  swizzle_mask-positive : (mode : ℕ) → 1 ≤ swizzle_mask format mode
  unfolding swizzle_mask
  swizzle_mask-positive mode = omega (
    arith,
    bit_or-right
        (bit_or
          (bit_or (bit_or 0 (2 ^ format.swizzle_source mode 0)) (2 ^ format.swizzle_source mode 1))
          (2 ^ format.swizzle_source mode 2))
        (2 ^ format.swizzle_source mode 3),
    one-le-pow (format.swizzle_source mode 3) 2,
  )

  read_mask-select :
      (mode : ℕ)
      → format.selection_mode mode ≡ 2
      → read_mask format mode ≡ some (2 ^ format.select_one mode)
  unfolding read_mask
  read_mask-select mode selection = rw (selection, ◌==◌) refl

  read_mask-mask :
      (mode : ℕ)
      → format.selection_mode mode ≡ 0
      → read_mask format mode ≡ some (format.component_mask mode / 2 ^ 4)
  unfolding read_mask
  read_mask-mask mode selection = rw (selection, ◌==◌) refl

  -- Where there is no component in the mask, the mode stays.
  destination_mode-empty :
      (mode mask : ℕ)
      → read_mask format mode ≡ some mask
      → (mask == 0) ≡ true
      → destination_mode format mode ≡ mode
  unfolding destination_mode
  destination_mode-empty mode mask e empty = rw (e, destination_mode) (rw empty refl)

  destination_mode-mask_mode :
      (mode : ℕ) → format.selection_mode mode < 3 → destination_mode format mode / 2 ^ 2 % 4 ≡ 0
  destination_mode-mask_mode mode defined = elim (Bool-cases (format.selection_mode mode == 0)) [
    | inl masked ↦
        let e = read_mask-mask mode (ground arith) in
        let m = format.component_mask mode / 2 ^ 4 in
        elim (Bool-cases (m == 0)) [
          | inl empty ↦
              omega (
                arith,
                destination_mode-empty mode m e empty,
                bits.mode_bits mode,
                ==_eq _ _ masked,
              )
          | inr present ↦ omega (arith, destination_mode-masked format bits mode m e present)
        ]
    | inr other ↦ elim (Bool-cases (format.selection_mode mode == 1)) [
      | inl swizzled ↦
          let m = swizzle_mask format mode in
          omega (
            arith,
            destination_mode-masked format bits mode m
                (read_mask-swizzle format bits mode (==_eq _ _ swizzled))
                (ground (arith, swizzle_mask-positive mode)),
          )
      | inr last ↦
          let two : format.selection_mode mode ≡ 2 = ground (arith, defined) in
          omega (
            arith,
            destination_mode-masked format bits mode (2 ^ format.select_one mode)
                (read_mask-select mode two) (ground (arith, one-le-pow (format.select_one mode) 2)),
          )
    ]
  ]

-- A source whose selection mode is defined, resolved as a destination, is accepted as one when it is
-- no unordered access view.
pub validate-resolve_for_role :
    (format : ComponentFormat) (op : Operand)
    → HasComponents format
    → format.selection_mode (mode_of op) < 3
    → ((head_of op).type == 30) ≡ false
    → validate_for_role format destination (resolve_for_role format source destination op) ≡ ok tt
unfolding resolve_for_role
validate-resolve_for_role format (operand head entry_list outer) bits defined no_view =
    validate_for_role_lem format destination
      (resolve_for_role format source destination (operand head entry_list outer)) bits
    ∙ rw (destination_mode-mask_mode format bits head.component_mode defined, no_view)
        (either_way (not (head.num_components == 2)))
