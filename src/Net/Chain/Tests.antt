-- ===== src/Net/Chain/Tests.antt =====
-- A chain at a concrete input, with a compressor that puts a byte before the data.
use mif.Prelude.{
  runtime_error, Result, ok, throws, All, ◌≡◌, refl, ◌≢◌, List, [], ◌∷◌, flatten, arith,
}
use mif.Net.Framing.{Buffer, to_big}
use mif.Net.Framing as Framing
use mif.Net.Chain.{on_data, publish_all, fresh}
use mif.Net.Chain.Frames.{sender, receiver, receiver-sender}

abbrev compress : Buffer → Buffer
compress b = 1 ∷ b

abbrev decompress : Buffer → Result Buffer
decompress [] = throws runtime_error
decompress (x ∷ b) = ok b

abbrev payload : Buffer
payload = 7 ∷ 8 ∷ []

abbrev pieces : List Buffer
pieces = (0 ∷ 0 ∷ []) ∷ (0 ∷ 3 ∷ 1 ∷ []) ∷ (7 ∷ 8 ∷ []) ∷ []

All-pieces : All (λ c. c ≢ []) pieces
All-pieces = ((λ e. cc), ((λ e. cc), ((λ e. cc), tt)))

sent_pieces :
    flatten pieces ≡ flatten (on_data (sender compress) (fresh tt, (fresh tt, tt)) payload).2
unfolding on_data publish_all Framing.process_data to_big
sent_pieces = refl

receiver-sender_example :
    publish_all (on_data (receiver decompress)) (fresh [], (fresh tt, tt)) pieces
    ≡ (ok tt, (fresh [], (fresh tt, tt)), payload ∷ [])
receiver-sender_example =
    receiver-sender compress decompress payload pieces (λ e. cc) (λ e. cc) (omega arith) refl
      All-pieces sent_pieces
