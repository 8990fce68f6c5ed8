-- ===== src/Net/Http/ParamPack/Tests.antt =====
-- The theorems on the parameters of a request, at concrete ones.
use mif.Prelude.{ok, ℕ, ◌-◌, ◌^◌, ◌≡◌, ◌↔◌, none, List, [], ◌∷◌, arith}
use mif.Serialization.Json.Numbers.{int16}
use mif.Net.Http.ParamPack.{
  string, integral, sequence, Fields, no_fields, required, optional, Params, split, convert,
  get_params,
}
use mif.Net.Http.ParamPack.Integers.{to_string, convert-to_string}
use mif.Net.Http.ParamPack.Sets.{IsAscending, contains, convert-set_of}
use mif.Net.Http.ParamPack.Missing.{IsGiven, get_params_iff}

convert-to_string_example :
    convert (integral int16) (to_string int16 (2 ^ 16 - 300)) ≡ ok (2 ^ 16 - 300)
convert-to_string_example =
    convert-to_string int16 (2 ^ 16 - 300) (ground arith) (λ e. ground arith)

-- "b;a;b"
abbrev letters : List ℕ
letters = 98 ∷ 59 ∷ 97 ∷ 59 ∷ 98 ∷ []

convert-set_of_example :
    (parts : List (List ℕ)) × (convert (sequence string) letters ≡ ok parts)
    × IsAscending parts
    × ((part : List ℕ) → contains part parts ≡ contains part (split letters))
convert-set_of_example = convert-set_of letters

-- A number that has to be there, and a text that may be missing
abbrev fields : Fields
fields = required (110 ∷ []) (integral int16) (optional (116 ∷ []) string no_fields)

abbrev sent : Params
sent = (110 ∷ [], 52 ∷ 50 ∷ []) ∷ []

get_params_iff_example :
    (get_params fields sent ≡ ok (42, (none, tt))) ↔ IsGiven fields sent (42, (none, tt))
get_params_iff_example = get_params_iff fields sent (42, (none, tt))
