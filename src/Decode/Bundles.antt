-- ===== src/Decode/Bundles.antt =====
-- The loop of nmxp_processCompressedData over the bundles of 17 bytes.
pub mod Bounds
pub mod Roundtrip
use nmxptool.Prelude.{
  ℕ, zero, suc, ◌+◌, Bool, true, false, Option, none, some, List, [], ◌∷◌, ◌++◌, length, take, drop,
  ltb, if◌then◌else◌,
}
use nmxptool.Prelude.Int.{ℤ, pos, negsuc, ltb_ℤ}
use nmxptool.Bundle.{Unpacked, unpack_bundle}

-- How the loop ends: with the cells of `outdata` that are written, by exit(), with a read past the end
-- of the data, or, never with fuel for every byte, without fuel.
pub data Loop : Type 0 where
  finished : List ℤ → Loop
  loop_exit : ℕ → Loop
  loop_fault : Loop
  no_fuel : Loop

-- `indata` is what is left of the compressed bytes at `i`, `outdata` has `nout` cells.
unfoldable pub unpack_bundles : Bool → ℕ → List ℕ → List ℤ → ℤ → Loop
unpack_bundles big fuel [] outdata prev_xn = finished outdata
unpack_bundles big zero (b ∷ bs) outdata prev_xn = no_fuel
unpack_bundles big (suc fuel) (b ∷ bs) outdata prev_xn = elim (ltb (length (b ∷ bs)) 17) [
  | true ↦ loop_exit 1
  | false ↦ elim (ltb 4096 (length outdata + 16)) [
    | true ↦ loop_exit 1
    | false ↦ elim (unpack_bundle big (take 17 (b ∷ bs)) prev_xn) [
      | none ↦ loop_fault
      | some u ↦ elim (ltb_ℤ u.result (pos 0)) [
        | true ↦ finished outdata
        | false ↦ unpack_bundles big fuel (drop 17 (b ∷ bs)) (outdata ++ u.samples) u.prev
      ]
    ]
  ]
]
