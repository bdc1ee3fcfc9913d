-- ===== src/Sm5/Roles/Masks.antt =====
-- A destination's mask as a source's swizzle, and back.
use direct_xshader_patcher.Base.{
  ℕ, zero, suc, ◌+◌, ◌-◌, ◌*◌, ◌/◌, ◌%◌, ◌^◌, ◌≤◌, ◌<◌, List, [], ◌∷◌, length, get_or, false, ◌==◌,
  some, if◌then◌else◌, bit_or, ◌≡◌, refl, ap, ap₂, sym, ◌∙◌, arith,
}
use direct_xshader_patcher.Base.Bits.{bit_or_fields}
use direct_xshader_patcher.Sm5.Operands.{Operand, operand}
use direct_xshader_patcher.Sm5.Roles.{
  source, destination, ComponentFormat, has_component, swizzle_mask, read_mask, mask_to_swizzle,
  destination_mode, source_mode, resolve_for_role, mode_of,
}

-- The documented bits of a component mode: the selection mode is in bits 2 and 3, a mask in bits 4
-- to 7, one component in bits 4 and 5, and a swizzle has two bits for each component from bit 4 on.
pub record HasComponents (format : ComponentFormat) : Type 0 where
  pub mode_bits : (t : ℕ) → format.selection_mode t ≡ t / 2 ^ 2 % 4
  pub mask_bits : (t : ℕ) → format.component_mask t ≡ t / 2 ^ 4 % 2 ^ 4 * 2 ^ 4
  pub select_bits : (t : ℕ) → format.select_one t ≡ t / 2 ^ 4 % 4
  pub swizzle_bits : (t c : ℕ) → c < 4 → format.swizzle_source t c ≡ t / 2 ^ (4 + 2 * c) % 4
  pub mode_put : (v : ℕ) → v < 4 → format.encode_mode v ≡ v * 2 ^ 2
  pub mask_put : (t : ℕ) → format.encode_mask t ≡ t / 2 ^ 4 % 2 ^ 4 * 2 ^ 4

-- The components in a mask, in their order.
abbrev pub masked : ℕ → ℕ → ℕ → List ℕ
masked mask zero comp = []
masked mask (suc comps) comp =
    let rest = masked mask comps (suc comp) in if has_component mask comp then comp ∷ rest else rest

-- What slot `i` of a swizzle stands for: the masked component with that number, or the last one.
abbrev pub slot_component : ℕ → ℕ → ℕ
slot_component mask i =
    let components = masked mask 4 0 in
    get_or components i (get_or components (length components - 1) 0)

-- A property of the numbers below a bound, one by one.
abbrev EachBelow : ℕ → (ℕ → Type 0) → Type 0
EachBelow zero P = Unit
EachBelow (suc n) P = P 0 × EachBelow n (λ k. P (suc k))

each_below : (n : ℕ) (P : ℕ → Type 0) → EachBelow n P → (m : ℕ) → m < n → P m
each_below zero P h m small = absurd (omega arith)
each_below (suc n) P h zero small = h.0
each_below (suc n) P h (suc m) small = each_below n (λ k. P (suc k)) h.1 m (omega arith)

-- The selectors of a swizzle and the mask of what they read.
selectors : ℕ → List ℕ
selectors w = w % 4 ∷ w / 4 % 4 ∷ w / 16 % 4 ∷ w / 64 % 4 ∷ []

reads : ℕ → ℕ
reads w =
    bit_or (bit_or (bit_or (bit_or 0 (2 ^ (w % 4))) (2 ^ (w / 4 % 4))) (2 ^ (w / 16 % 4)))
      (2 ^ (w / 64 % 4))

record Packed (mask : ℕ) : Type 0 where
  selects :
      selectors (mask_to_swizzle mask)
      ≡ slot_component mask 0
        ∷ slot_component mask 1
        ∷ slot_component mask 2
        ∷ slot_component mask 3
        ∷ []
  reads_back : reads (mask_to_swizzle mask) ≡ mask
  in_byte : mask_to_swizzle mask / 2 ^ 8 ≡ 0

fifteen_masks : EachBelow 15 (λ k. Packed (suc k))
unfolding mask_to_swizzle selectors reads
fifteen_masks = (
  record { selects = refl; reads_back = refl; in_byte = refl },
  (
    record { selects = refl; reads_back = refl; in_byte = refl },
    (
      record { selects = refl; reads_back = refl; in_byte = refl },
      (
        record { selects = refl; reads_back = refl; in_byte = refl },
        (
          record { selects = refl; reads_back = refl; in_byte = refl },
          (
            record { selects = refl; reads_back = refl; in_byte = refl },
            (
              record { selects = refl; reads_back = refl; in_byte = refl },
              (
                record { selects = refl; reads_back = refl; in_byte = refl },
                (
                  record { selects = refl; reads_back = refl; in_byte = refl },
                  (
                    record { selects = refl; reads_back = refl; in_byte = refl },
                    (
                      record { selects = refl; reads_back = refl; in_byte = refl },
                      (
                        record { selects = refl; reads_back = refl; in_byte = refl },
                        (
                          record { selects = refl; reads_back = refl; in_byte = refl },
                          (
                            record { selects = refl; reads_back = refl; in_byte = refl },
                            (record { selects = refl; reads_back = refl; in_byte = refl }, tt),
                          ),
                        ),
                      ),
                    ),
                  ),
                ),
              ),
            ),
          ),
        ),
      ),
    ),
  ),
)

mask_to_swizzle-Packed : (mask : ℕ) → 1 ≤ mask → mask < 16 → Packed mask
mask_to_swizzle-Packed zero some_set small = absurd (omega arith)
mask_to_swizzle-Packed (suc k) some_set small =
    each_below 15 (λ k. Packed (suc k)) fifteen_masks k (omega arith)

module _ (format : ComponentFormat) (bits : HasComponents format) where
  swizzle_source_lem :
      (w i : ℕ) → i < 4 → format.swizzle_source (4 + w * 2 ^ 4) i ≡ get_or (selectors w) i 0
  unfolding selectors
  swizzle_source_lem w zero here = omega (arith, bits.swizzle_bits (4 + w * 2 ^ 4) 0 here)
  swizzle_source_lem w (suc zero) here = omega (arith, bits.swizzle_bits (4 + w * 2 ^ 4) 1 here)
  swizzle_source_lem w (suc (suc zero)) here =
      omega (arith, bits.swizzle_bits (4 + w * 2 ^ 4) 2 here)
  swizzle_source_lem w (suc (suc (suc zero))) here =
      omega (arith, bits.swizzle_bits (4 + w * 2 ^ 4) 3 here)
  swizzle_source_lem w (suc (suc (suc (suc i)))) here = absurd (omega (arith, here))

  swizzle_mask_lem : (w : ℕ) → swizzle_mask format (4 + w * 2 ^ 4) ≡ reads w
  unfolding swizzle_mask reads selectors
  swizzle_mask_lem w =
      rw
        (
          swizzle_source_lem w 0 (omega arith),
          swizzle_source_lem w 1 (omega arith),
          swizzle_source_lem w 2 (omega arith),
          swizzle_source_lem w 3 (omega arith),
        )
        refl

  -- A destination with a mask becomes a source in swizzle mode.
  source_mode_lem :
      (mode : ℕ)
      → 1 ≤ mode / 2 ^ 4 % 2 ^ 4
      → source_mode format mode ≡ 4 + mask_to_swizzle (mode / 2 ^ 4 % 2 ^ 4) * 2 ^ 4
  unfolding source_mode
  source_mode_lem mode some_set =
      let mask = bits.mask_bits mode in
      let shifted : format.component_mask mode / 2 ^ 4 ≡ mode / 2 ^ 4 % 2 ^ 4 =
        omega (arith, mask) in
      let present : (format.component_mask mode == 0) ≡ false = ground (arith, mask) in
      rw present (
        ap₂ bit_or (bits.mode_put 1 (omega arith)) (ap (λ m. mask_to_swizzle m * 2 ^ 4) shifted)
        ∙ bit_or_fields 4 (mask_to_swizzle (mode / 2 ^ 4 % 2 ^ 4)) 4 (omega arith))

  pub read_mask-swizzle :
      (mode : ℕ)
      → format.selection_mode mode ≡ 1
      → read_mask format mode ≡ some (swizzle_mask format mode)
  unfolding read_mask
  read_mask-swizzle mode selection = rw (selection, ◌==◌) refl

  pub destination_mode-masked :
      (mode mask : ℕ)
      → read_mask format mode ≡ some mask
      → (mask == 0) ≡ false
      → destination_mode format mode ≡ mask % 2 ^ 4 * 2 ^ 4
  unfolding destination_mode
  destination_mode-masked mode mask e present =
      rw (e, destination_mode)
        (rw present (
          ap₂ bit_or (bits.mode_put 0 (omega arith)) (bits.mask_put (mask * 2 ^ 4))
          ∙ bit_or_fields 4 (mask * 2 ^ 4 / 2 ^ 4 % 2 ^ 4) 0 (omega arith)
          ∙ omega arith))

  destination_mode_lem :
      (mask : ℕ)
      → 1 ≤ mask
      → mask < 16
      → destination_mode format (4 + mask_to_swizzle mask * 2 ^ 4) ≡ mask * 2 ^ 4
  destination_mode_lem mask some_set small =
      let mode = 4 + mask_to_swizzle mask * 2 ^ 4 in
      let selection : format.selection_mode mode ≡ 1 = omega (arith, bits.mode_bits mode) in
      let back =
        swizzle_mask_lem (mask_to_swizzle mask)
        ∙ (mask_to_swizzle-Packed mask some_set small).reads_back in
      destination_mode-masked mode mask (read_mask-swizzle mode selection ∙ ap some back)
        (ground arith)
      ∙ omega (arith, small)

  four_slots :
      (mask i : ℕ)
      → i < 4
      → get_or
          (slot_component mask 0
            ∷ slot_component mask 1
            ∷ slot_component mask 2
            ∷ slot_component mask 3
            ∷ [])
          i
          0
        ≡ slot_component mask i
  four_slots mask zero here = refl
  four_slots mask (suc zero) here = refl
  four_slots mask (suc (suc zero)) here = refl
  four_slots mask (suc (suc (suc zero))) here = refl
  four_slots mask (suc (suc (suc (suc i)))) here = absurd (omega (arith, here))

  resolved_selectors :
      (mode i : ℕ)
      → 1 ≤ mode / 2 ^ 4 % 2 ^ 4
      → i < 4
      → format.swizzle_source (source_mode format mode) i ≡ slot_component (mode / 2 ^ 4 % 2 ^ 4) i
  unfolding selectors
  resolved_selectors mode i some_set here =
      let m = mode / 2 ^ 4 % 2 ^ 4 in
      let packed = mask_to_swizzle-Packed m some_set (omega arith) in
      ap (λ t. format.swizzle_source t i) (source_mode_lem mode some_set)
      ∙ swizzle_source_lem (mask_to_swizzle m) i here
      ∙ ap (λ l. get_or l i 0) packed.selects
      ∙ four_slots m i here

-- A destination with a mask, resolved as a source, reads in slot `i` the masked component with that
-- number, and the last masked component in the slots behind them.
pub resolve_for_role-source :
    (format : ComponentFormat) (op : Operand) (i : ℕ)
    → HasComponents format
    → 1 ≤ mode_of op / 2 ^ 4 % 2 ^ 4
    → i < 4
    → (format.selection_mode (mode_of (resolve_for_role format destination source op)) ≡ 1)
      × (format.swizzle_source (mode_of (resolve_for_role format destination source op)) i
          ≡ slot_component (mode_of op / 2 ^ 4 % 2 ^ 4) i)
unfolding resolve_for_role
resolve_for_role-source format (operand head entry_list outer) i bits some_set here =
    let mode = head.component_mode in
    let w = mask_to_swizzle (mode / 2 ^ 4 % 2 ^ 4) in
    (
      ap format.selection_mode (source_mode_lem format bits mode some_set)
          ∙ omega (arith, bits.mode_bits (4 + w * 2 ^ 4)),
      resolved_selectors format bits mode i some_set here,
    )

-- A destination with a mask and no other bits, resolved as a source and then as a destination
-- again, is the operand that it was.
pub resolve_for_role-inverse :
    (format : ComponentFormat) (op : Operand) (mask : ℕ)
    → HasComponents format
    → 1 ≤ mask
    → mask < 16
    → mode_of op ≡ mask * 2 ^ 4
    → resolve_for_role format source destination (resolve_for_role format destination source op)
      ≡ op
unfolding resolve_for_role
resolve_for_role-inverse format (operand head entry_list outer) mask bits some_set small e =
    let shown : head.component_mode / 2 ^ 4 % 2 ^ 4 ≡ mask = omega (arith, e) in
    let there =
      source_mode_lem format bits head.component_mode (omega (arith, shown))
      ∙ ap (λ m. 4 + mask_to_swizzle m * 2 ^ 4) shown in
    let back =
      ap (destination_mode format) there
      ∙ destination_mode_lem format bits mask some_set small
      ∙ sym e in
    rw back refl
