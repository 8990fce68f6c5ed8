-- ===== src/Net/Chain/Frames.antt =====
-- The chains of include/mif/remote/predefined/protocol/archived_frame.h, from one end of a
-- connection to the other.
use mif.Prelude.{
  Result, ok, throws, length, All, ℕ, ◌^◌, ◌<◌, ◌≡◌, refl, sym, ap, ◌∙◌, ◌≢◌, Option, none, some,
  List, [], ◌∷◌, ◌++◌, flatten, append-nil, append_assoc, arith,
}
use mif.Net.Framing.{Buffer, Outcome, waits, posts, undefined, process_data, feed, posted}
use mif.Net.Framing as Framing
use mathlib.Core.Option.{some_inj}
use mathlib.Core.Option
use mif.Net.Framing.Stream.{feed-fragments}
use mif.Net.Framing.Lemmas.{length-process_data}
use mif.Net.Chain.{
  Class, Holders, publish_all, on_data, frame_reader, frame_writer, gzip_compressor,
  gzip_decompressor, fresh, and_then, handed,
}

module _ {ℓ} {H : Type ℓ} (f : H → Buffer → Result (Unit {0}) × H × List Buffer) where
  publish_all-cons :
      (h : H) (b : Buffer) (bs : List Buffer) {now last : H} {out out' : List Buffer}
      → f h b ≡ (ok tt, now, out)
      → publish_all f now bs ≡ (ok tt, last, out')
      → publish_all f h (b ∷ bs) ≡ (ok tt, last, out ++ out')
  unfolding publish_all
  publish_all-cons h b bs e k = rw (publish_all, e, k) refl

  -- Two calls that throw nothing, one after the other
  abbrev Both :
      Result (Unit {0}) × H × List Buffer
      → (H → Result (Unit {0}) × H × List Buffer)
      → H
      → List Buffer
      → Type ℓ
  Both m next last out =
      (now : H) × (out1 : List Buffer) × (out2 : List Buffer) × (m ≡ (ok tt, now, out1))
      × (next now ≡ (ok tt, last, out2))
      × (out ≡ out1 ++ out2)

  and_then-Both :
      (m : Result (Unit {0}) × H × List Buffer) (next : H → Result (Unit {0}) × H × List Buffer)
      {last : H} {out : List Buffer}
      → and_then m next ≡ (ok tt, last, out)
      → Both m next last out
  and_then-Both (throws e, now, out1) next h = cc
  and_then-Both (ok u, now, out1) next {last} {out} h =
      (now, out1, (next now).2, refl, ap (λ p. (p.0, p.1, (next now).2)) h, sym (ap (λ p. p.2) h))

  publish_all-append :
      (xs ys : List Buffer) (h : H) {last : H} {out : List Buffer}
      → publish_all f h (xs ++ ys) ≡ (ok tt, last, out)
      → Both (publish_all f h xs) (λ now. publish_all f now ys) last out
  unfolding publish_all
  publish_all-append [] ys h {last} {out} e = (h, [], out, refl, e, refl)
  publish_all-append (x ∷ xs) ys h {last} {out} e =
      let (now, out1, out2, m, k, o) =
        and_then-Both (f h x) (λ now. publish_all f now (xs ++ ys)) e in
      let (now', out3, out4, m', k', o') = publish_all-append xs ys now k in
      (
        now',
        out1 ++ out3,
        out4,
        publish_all-cons h x xs m m',
        k',
        o ∙ ap (λ t. out1 ++ t) o' ∙ sym (append_assoc out1 out3 out4),
      )

posted-handed :
    (o : Outcome) (outs : List Outcome) (ps : List Buffer)
    → posted (o ∷ outs) ≡ some ps
    → (rest : List Buffer) × (posted outs ≡ some rest) × (ps ≡ handed o ++ rest)
posted-handed waits outs ps e = (ps, e, refl)
posted-handed (posts p) outs ps e = first (posted outs) e
  where
    first :
        (found : Option (List Buffer))
        → Option.map (λ (qs : List Buffer). p ∷ qs) found ≡ some ps
        → (rest : List Buffer) × (found ≡ some rest) × (ps ≡ p ∷ rest)
    first none e = cc
    first (some rest) e = (rest, refl, cc)
posted-handed undefined outs ps e = cc

-- One read: the reader's buffer changes, and the rest gets what it posts.
reader-on_data :
    (cs : List Class) (h : Holders cs) (st : Buffer) (x : ℕ) (c : Buffer) {last : Holders cs}
    {out : List Buffer}
    → publish_all (on_data cs) h (handed (Framing.on_data st (x ∷ c)).1) ≡ (ok tt, last, out)
    → on_data (frame_reader ∷ cs) (fresh st, h) (x ∷ c)
      ≡ (ok tt, (fresh (Framing.on_data st (x ∷ c)).0, last), out)
unfolding on_data
reader-on_data cs h st x c e = rw (on_data, e) refl

-- Whatever the reads of a connection post, the rest of the chain gets: a chain that begins with a
-- reader, over the reads, does what the rest of it does over the payloads of the frames.
pub publish_all-frame_reader :
    (cs : List Class) (h : Holders cs) (st : Buffer) (pieces ps : List Buffer) {last : Holders cs}
    {out : List Buffer}
    → All (λ c. c ≢ []) pieces
    → posted (feed st pieces).1 ≡ some ps
    → publish_all (on_data cs) h ps ≡ (ok tt, last, out)
    → publish_all (on_data (frame_reader ∷ cs)) (fresh st, h) pieces
      ≡ (ok tt, (fresh (feed st pieces).0, last), out)
unfolding publish_all on_data feed
publish_all-frame_reader cs h st [] ps n run e =
    ap (λ p. (p.0, ((fresh st), p.1), p.2)) (ap (publish_all (on_data cs) h) (some_inj.0 run) ∙ e)
publish_all-frame_reader cs h st ([] ∷ pieces) ps n run e = absurd (n.0 refl)
publish_all-frame_reader cs h st ((x ∷ c) ∷ pieces) ps {last} {out} n run e =
    let o = Framing.on_data st (x ∷ c) in
    let (rest, others, whole) = posted-handed o.1 (feed o.0 pieces).1 ps run in
    let (now, out1, out2, m, k, s) =
      publish_all-append (on_data cs) (handed o.1) rest h {last = last} {out = out}
        (rw (← whole) e) in
    rw s (
      publish_all-cons (on_data (frame_reader ∷ cs)) (fresh st, h) (x ∷ c) pieces
        (reader-on_data cs h st x c m)
        (publish_all-frame_reader cs now o.0 pieces rest n.1 others k))

-- The two halves of an `ArchivedFrame`, without the handler that moves a call to another thread: from
-- the client to the connection, and from the connection to the client
abbrev pub sender : (Buffer → Buffer) → List Class
sender compress = gzip_compressor compress ∷ frame_writer ∷ []

abbrev pub receiver : (Buffer → Result Buffer) → List Class
receiver decompress = frame_reader ∷ gzip_decompressor decompress ∷ []

write_one :
    (z : Buffer)
    → z ≢ []
    → on_data (frame_writer ∷ []) (fresh tt, tt) z ≡ (ok tt, (fresh tt, tt), process_data z ∷ [])
unfolding on_data publish_all
write_one [] k = absurd (k refl)
write_one (y ∷ z) k = refl

send :
    (compress : Buffer → Buffer) (b : Buffer)
    → b ≢ []
    → compress b ≢ []
    → on_data (sender compress) (fresh tt, (fresh tt, tt)) b
      ≡ (ok tt, (fresh tt, (fresh tt, tt)), process_data (compress b) ∷ [])
unfolding on_data publish_all
send compress [] n k = absurd (n refl)
send compress (x ∷ b) n k = rw (on_data, publish_all, write_one (compress (x ∷ b)) k) refl

receive :
    (decompress : Buffer → Result Buffer) (z b : Buffer)
    → z ≢ []
    → decompress z ≡ ok b
    → publish_all (on_data (gzip_decompressor decompress ∷ [])) (fresh tt, tt) (z ∷ [])
      ≡ (ok tt, (fresh tt, tt), b ∷ [])
unfolding on_data publish_all
receive decompress [] b n e = absurd (n refl)
receive decompress (x ∷ z) b n e = rw (e, publish_all) refl

-- An `ArchivedFrame` from end to end, in one thread: what the client of one end posts, once and not
-- empty, is compressed and framed; if the connection cuts the bytes in any pieces that are not empty, the other end gives
-- its client the same data, once, throws nothing, and keeps nothing back. The decompressor is
-- one that undoes the compressor, and the compressed data is less than 2 GB and is not empty.
pub receiver-sender :
    (compress : Buffer → Buffer) (decompress : Buffer → Result Buffer) (b : Buffer)
    (pieces : List Buffer)
    → b ≢ []
    → compress b ≢ []
    → length (compress b) < 2 ^ 31
    → decompress (compress b) ≡ ok b
    → All (λ c. c ≢ []) pieces
    → flatten pieces ≡ flatten (on_data (sender compress) (fresh tt, (fresh tt, tt)) b).2
    → publish_all (on_data (receiver decompress)) (fresh [], (fresh tt, tt)) pieces
      ≡ (ok tt, (fresh [], (fresh tt, tt)), b ∷ [])
receiver-sender compress decompress b pieces n k l inverse whole cut =
    let sent = (rw (send compress b n k) at cut) in
    let framed = sent ∙ append-nil (process_data (compress b)) in
    let fed = feed-fragments (compress b) [] pieces l framed (not_nil framed) in
    publish_all-frame_reader (gzip_decompressor decompress ∷ []) (fresh tt, tt) [] pieces
      (compress b ∷ []) whole fed.0 (receive decompress (compress b) b k inverse)
    ∙ ap (λ (st : Buffer). (ok tt, (fresh st, (fresh tt, tt)), b ∷ [])) fed.1
  where
    not_nil : flatten pieces ≡ process_data (compress b) → flatten pieces ≢ []
    not_nil e m = absurd (omega (arith, length-process_data (compress b), ap length (sym m ∙ e)))
