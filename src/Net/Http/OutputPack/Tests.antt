-- ===== src/Net/Http/OutputPack/Tests.antt =====
-- The portions of a body at concrete inputs.
use mif.Prelude.{ok, All, ◌≡◌, refl, some, List, [], ◌∷◌, flatten, arith}
use mif.Net.Http.OutputPack.{
  Buffer, output_pack, first_body, set_data, next_portion, get_next_portion, portions,
}
use mif.Net.Http.OutputPack.Portions.{Fits, portions-set_data}

abbrev five : Buffer
five = 1 ∷ 2 ∷ 3 ∷ 4 ∷ 5 ∷ []

-- A body that is asked for begins with an empty portion.
portions-five :
    portions 7 (set_data (some five) (output_pack 2))
    ≡ some (ok ([] ∷ (1 ∷ 2 ∷ []) ∷ (3 ∷ 4 ∷ []) ∷ (5 ∷ []) ∷ []))
unfolding portions set_data first_body get_next_portion next_portion
portions-five = refl

portions-set_data_example :
    (ps : List Buffer) × (portions 7 (set_data (some five) (output_pack 2)) ≡ some (ok ps))
    × (flatten ps ≡ five)
    × All (Fits 2) ps
portions-set_data_example = portions-set_data five (output_pack 2) (omega arith)
