-- ===== src/Net/Chain.antt =====
-- `ClientsChain` of include/mif/net/clients_chain.h, and the clients of src/mif/net/clients that the
-- chains of include/mif/remote/predefined/protocol put together. The calls of a chain are made in
-- one thread; the exception of a stage ends the call of every stage before it.
pub mod Frames
mod Tests
use mif.Prelude.{
  if◌then◌else◌, invalid_argument, Result, ok, throws, ◌>>=◌, Bool, true, false, List, [], ◌∷◌,
  ◌++◌,
}
use mif.Net.Framing.{Buffer, Outcome, waits, posts, undefined}
use mif.Net.Framing as Framing

-- A class of clients: what its `ProcessData` makes of the object's state, and then posts, in order,
-- or throws
pub record Class : Type 1 where
  pub State : Type 0
  pub process : State → Buffer → State × Result (List Buffer)

-- A client of a holder: `m_makredAsClosed` and its own state
pub record Item (S : Type 0) : Type 0 where
  pub is_closed : Bool
  pub state : S

-- The holders of a chain of classes
abbrev pub Holders : List Class → Type 0
Holders [] = Unit
Holders (c ∷ cs) = Item c.State × Holders cs

-- What a call does: whether it throws, the holders after it, and what comes to `m_owner.Post`
abbrev pub Outputs : List Class → Type 0
Outputs cs = Result (Unit {0}) × Holders cs × List Buffer

-- One call after another: the second is made where the first throws nothing.
abbrev pub and_then {ℓ} :
    {H : Type ℓ}
    → Result (Unit {0}) × H × List Buffer
    → (H → Result (Unit {0}) × H × List Buffer)
    → Result (Unit {0}) × H × List Buffer
and_then (throws e, now, out) next = (throws e, now, out)
and_then (ok u, now, out) next = ((next now).0, (next now).1, out ++ (next now).2)

-- `Publish` of a holder, for every buffer that its client posts, until one call throws
pub publish_all {ℓ} :
    {H : Type ℓ}
    → (H → Buffer → Result (Unit {0}) × H × List Buffer)
    → H
    → List Buffer
    → Result (Unit {0}) × H × List Buffer
publish_all on_data h [] = (ok tt, h, [])
publish_all on_data h (b ∷ bs) = and_then (on_data h b) (λ now. publish_all on_data now bs)

-- The first holder of a chain: `Holder::OnData`, that calls `Client::OnData` and `ProcessData`; at
-- the end of the chain `ChainClient::OnData`
pub on_data : (cs : List Class) → Holders cs → Buffer → Outputs cs
on_data [] h b = (ok tt, h, b ∷ [])
on_data (c ∷ cs) (item, rest) b =
    let (state, posted) = c.process item.state b in
    if item.is_closed then (ok tt, (item, rest), []) else elim b [
      | [] ↦ (throws invalid_argument, (item, rest), [])
      | x ∷ xs ↦ elim posted [
        | throws e ↦ (throws e, (record { is_closed = false; state = state }, rest), [])
        | ok bs ↦
            let (r, now, out) = publish_all (on_data cs) rest bs in
            (r, (record { is_closed = false; state = state }, now), out)
      ]
    ]

-- `Holder::OnClose`: every client of the chain is marked.
pub on_close : (cs : List Class) → Holders cs → Holders cs
on_close [] h = h
on_close (c ∷ cs) (item, rest) = (record item { is_closed = true }, on_close cs rest)

-- What a reader posts. After an undefined call nothing can be said; a theorem excludes it.
abbrev pub handed : Outcome → List Buffer
handed waits = []
handed (posts p) = p ∷ []
handed undefined = []

-- `FrameReader` and `FrameWriter`
abbrev pub frame_reader : Class
frame_reader = record {
  State = Buffer;
  process = λ m_buffer buffer.
      ((Framing.on_data m_buffer buffer).0, ok (handed (Framing.on_data m_buffer buffer).1));
}

abbrev pub frame_writer : Class
frame_writer = record {
  State = Unit {0};
  process = λ u buffer. (u, ok (Framing.process_data buffer ∷ []));
}

-- `GZipCompressor` and `GZipDecompressor`, with what the filters of Boost make of a buffer; the
-- second may throw.
abbrev pub gzip_compressor : (Buffer → Buffer) → Class
gzip_compressor compress = record {
  State = Unit {0};
  process = λ u buffer. (u, ok (compress buffer ∷ []));
}

abbrev pub gzip_decompressor : (Buffer → Result Buffer) → Class
gzip_decompressor decompress = record {
  State = Unit {0};
  process = λ u buffer. (u, decompress buffer >>= λ result. ok (result ∷ []));
}

-- The clients of a new chain
abbrev pub fresh : {S : Type 0} → S → Item S
fresh s = record { is_closed = false; state = s }
