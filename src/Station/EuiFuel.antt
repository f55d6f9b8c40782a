-- ===== src/Station/EuiFuel.antt =====
-- internal/backend/basicstation/structs/eui64.go: the loop over the blocks ends within its fuel.
use lora_gateway_bridge.Common.{
  ℕ, zero, suc, ◌-◌, ◌≤◌, ◌≡◌, refl, arith, List, [], ◌∷◌, drop, length, Bytes, Eui64, Result, ok,
  err, panic, ◌>>=◌,
}
use lora_gateway_bridge.Common.Int.{ℤ, pos, ◌-ℤ◌, ◌+ℤ◌}
use lora_gateway_bridge.Station.Eui.{remaining_blocks, EuiError, read_block, read_blocks}

remaining_bound : (blocks : List Bytes) → remaining_blocks blocks ≤ length blocks
unfolding remaining_blocks
remaining_bound [] = omega arith
remaining_bound ([] ∷ blocks) = omega (arith, remaining_bound blocks)
remaining_bound ((c ∷ block) ∷ blocks) = omega (arith, remaining_bound blocks)

length-drop : {A : Type 0} (n : ℕ) (xs : List A) → length (drop n xs) ≡ length xs - n
length-drop zero xs = omega arith
length-drop (suc n) [] = omega arith
length-drop (suc n) (x ∷ xs) = omega (arith, length-drop n xs)

>>=-cong :
    {A B : Type 0} (r : Result EuiError A) (f g : A → Result EuiError B)
    → ((a : A) → f a ≡ g a)
    → (r >>= f) ≡ (r >>= g)
>>=-cong (ok a) f g h = h a
>>=-cong (err e) f g h = refl
>>=-cong panic f g h = refl

-- Fuel for each block is enough: more fuel changes nothing.
pub read_blocks_fuel :
    (fuel : ℕ) (i : ℤ) (blocks : List Bytes) (id : Eui64)
    → length blocks ≤ fuel
    → read_blocks (suc fuel) i blocks id ≡ read_blocks fuel i blocks id
unfolding read_blocks
read_blocks_fuel zero i [] id h = refl
read_blocks_fuel zero i (block ∷ blocks) id h = absurd (omega (arith, h))
read_blocks_fuel (suc fuel) i [] id h = refl
read_blocks_fuel (suc fuel) i ([] ∷ blocks) id h =
    let remaining = remaining_blocks blocks in
    read_blocks_fuel fuel (pos 4 -ℤ pos remaining)
      (drop (suc (length blocks) - remaining) ([] ∷ blocks)) id
      (omega (
        arith,
        h,
        remaining_bound blocks,
        length-drop (suc (length blocks) - remaining) ([] ∷ blocks),
      ))
read_blocks_fuel (suc fuel) i ((c ∷ block) ∷ blocks) id h =
    >>=-cong (read_block i (c ∷ block) id) _ _
      λ id'. read_blocks_fuel fuel (i +ℤ pos 1) blocks id' (omega (arith, h))
