-- ===== src/Net/Http/OutputPack.antt =====
-- The body of a message that is written in portions: `SetData` and `GetNextPortion` of
-- src/mif/net/http/detail/output_pack.h.
pub mod Portions
mod Tests
use mif.Prelude.{
  ltb, if◌then◌else◌, logic_error, Result, ok, throws, ◌>>=◌, length, take, drop, ℕ, zero, suc, ◌+◌,
  ◌-◌, min, Bool, true, false, not, Option, none, some, List, [], ◌∷◌,
}

abbrev pub Buffer : Type 0
Buffer = List ℕ

-- `m_data.body()`: the bytes that it points at (`data` and `size`), and whether more will follow
pub record Body : Type 0 where
  pub bytes : Buffer
  pub more : Bool

-- `m_bufferPtr` is an index into `m_buffer`; `serializer` says whether `m_serializer` is set.
pub record OutputPack : Type 0 where
  pub chunk_size : ℕ
  pub serializer : Bool
  pub buffer : Option Buffer
  pub position : ℕ
  pub body : Body

-- A new pack
abbrev pub output_pack : ℕ → OutputPack
output_pack chunk_size = record {
  chunk_size = chunk_size;
  serializer = false;
  buffer = none;
  position = 0;
  body = record { bytes = []; more = false };
}

-- The body after `SetData`: empty, whole if it is shorter than a chunk, or to be asked for.
pub first_body : ℕ → Buffer → Body
first_body chunk_size [] = record { bytes = []; more = false }
first_body chunk_size (b ∷ bs) =
    if ltb (length (b ∷ bs)) chunk_size
    then record { bytes = b ∷ bs; more = false }
    else record { bytes = []; more = true }

-- `SetData(BufferPtr)`
pub set_data : Option Buffer → OutputPack → OutputPack
set_data none p = record p {
  serializer = true;
  buffer = none;
  body = record { bytes = []; more = false };
}
set_data (some []) p = record p {
  serializer = true;
  buffer = some [];
  body = first_body p.chunk_size [];
}
set_data (some (b ∷ bs)) p = record p {
  serializer = true;
  buffer = some (b ∷ bs);
  position = 0;
  body = first_body p.chunk_size (b ∷ bs);
}

-- `GetData`: a pack with no data set gets an empty body.
pub get_data : OutputPack → OutputPack
get_data p = if p.serializer then p else set_data none p

-- The bytes of `m_buffer`; a pointer that is not set is not followed where `more` is set.
abbrev pub held : OutputPack → Buffer
held p = elim p.buffer [ none ↦ [] | some b ↦ b ]

-- `GetNextPortion` past its checks
pub next_portion : OutputPack → OutputPack
next_portion p =
    let rest = length (held p) - p.position in
    let size = min rest p.chunk_size in
    record p {
      body = record { bytes = take size (drop p.position (held p)); more = ltb p.chunk_size rest };
      position = p.position + size;
    }

-- `GetNextPortion`
pub get_next_portion : OutputPack → Result OutputPack
get_next_portion p =
    if not p.serializer
    then throws logic_error
    else (if not p.body.more then throws logic_error else ok (next_portion p))

-- What `Session::OnWrite` makes of a pack: the body is written, and as long as more follows the
-- writer asks for a buffer and gets the next portion. `none` means that the fuel ran out.
pub portions : ℕ → OutputPack → Option (Result (List Buffer))
portions zero p = none
portions (suc fuel) p = elim p.body.more [
  | false ↦ some (ok (p.body.bytes ∷ []))
  | true ↦ elim (get_next_portion p) [
    | throws e ↦ some (throws e)
    | ok p' ↦ elim (portions fuel p') [
      | none ↦ none
      | some r ↦ some (r >>= λ ps. ok (p.body.bytes ∷ ps))
    ]
  ]
]
