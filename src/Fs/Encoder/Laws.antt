-- ===== src/Fs/Encoder/Laws.antt =====
-- Content that goes through an encoder.
use tux_io_encoding.Prelude.{sizes}
use tux_io_encoding.Prelude.{
  ℕ, ◌+◌, ◌≤◌, ◌≡◌, refl, sym, ap, ◌∙◌, inl, inr, List, [], ◌∷◌, ◌++◌, append-nil, append_assoc,
  arith, ◌==◌, length, take, length-take,
}
use tux_io_encoding.Error.{ok, err, panicked, map_ok, ok-injective}
use tux_io_encoding.Io.{Bytes}
use tux_io_encoding.Word.Signed.{ℤ}
use tux_io_encoding.Fs.Encoder.{record_written}
use tux_io_encoding.Word.Usize.{add_usize, add_usize-ok}
use tux_io_encoding.Tags.Keys.MetaKey.{HeaderNames}
use tux_io_encoding.Fs.Error.{FilePath, ObjectFileError, ObjectFileResult}
use tux_io_encoding.Fs.Support.{Features}
use tux_io_encoding.Fs.Disk.{Disk, System, Action, lift, pure, ◌>>=◌}
use tux_io_encoding.Fs.Disk.Laws.{>>=-ok, lift-ok, pure-ok, branch}
use tux_io_encoding.Fs.Writer.{ObjectWriter, write}
use tux_io_encoding.Fs.Writer.State.{IsWriting, write-ok, write-IsWriting}
use tux_io_encoding.Fs.Encoder.{
  Codec, Codecs, ContentEncoder, stored, zstd_encoder, gzip_encoder, uncompressed_length, hand_on,
  encoder_write, flush_codec,
}

module _ (codec : Codec) where
  -- What a codec hands on for buffers that it is given one after another, its end included.
  abbrev pub encoded : List Bytes → codec.State → Bytes
  encoded [] state = codec.rest state
  encoded (buf ∷ bufs) state = codec.emits buf state ++ encoded bufs (codec.next buf state)

  -- The bytes that it takes of them.
  abbrev pub taken : List Bytes → codec.State → Bytes
  taken [] state = []
  taken (buf ∷ bufs) state = take (codec.takes buf state) buf ++ taken bufs (codec.next buf state)

  -- What the crates document: an encoder takes at most what it is given, and the decoder returns what it took.
  pub record IsFaithful : Type 0 where
    pub takes_part : (buf : Bytes) (state : codec.State) → codec.takes buf state ≤ length buf
    pub decodes :
        (bufs : List Bytes) → codec.decode (encoded bufs codec.start) ≡ ok (taken bufs codec.start)

pub record AreFaithful (codecs : Codecs) : Type 0 where
  pub zstd_faithful : (level : ℤ) → IsFaithful (codecs.zstd_codec level)
  pub gzip_faithful : (level : ℕ) → IsFaithful (codecs.gzip_codec level)

map_ok-ok :
    {A B : Type 0} (f : A → B) (r : ObjectFileResult A) {b : B}
    → map_ok f r ≡ ok b
    → (a : A) × (r ≡ ok a) × (b ≡ f a)
map_ok-ok f (ok a) h = (a, refl, ok-injective (sym h))
map_ok-ok f (err e) h = cc
map_ok-ok f panicked h = cc

abbrev pub joined : List Bytes → Bytes
joined [] = []
joined (buf ∷ bufs) = buf ++ joined bufs

module _ {HeaderName : Type 0} (http : HeaderNames HeaderName) (codecs : Codecs) where
  -- What the writer gets, and what was taken, from an encoder in any state.
  abbrev pub outputs : List Bytes → ContentEncoder http codecs → Bytes
  outputs bufs (stored w n) = joined bufs
  outputs bufs (zstd_encoder level state w n) = encoded (codecs.zstd_codec level) bufs state
  outputs bufs (gzip_encoder level state w n) = encoded (codecs.gzip_codec level) bufs state

  abbrev pub inputs : List Bytes → ContentEncoder http codecs → Bytes
  inputs bufs (stored w n) = joined bufs
  inputs bufs (zstd_encoder level state w n) = taken (codecs.zstd_codec level) bufs state
  inputs bufs (gzip_encoder level state w n) = taken (codecs.gzip_codec level) bufs state

  abbrev pub writer_of : ContentEncoder http codecs → ObjectWriter http
  writer_of (stored w n) = w
  writer_of (zstd_encoder level state w n) = w
  writer_of (gzip_encoder level state w n) = w

  module _ (os : System) (features : Features) where
    -- Buffers that are written one after another.
    abbrev pub write_buffers :
        List Bytes → ContentEncoder http codecs → Action (ContentEncoder http codecs)
    write_buffers [] e = pure e
    write_buffers (buf ∷ bufs) e = do
      (_, e) ← encoder_write http codecs os features buf e
      write_buffers bufs e

    hand_on-IsWriting :
        (bs content : Bytes) (w : ObjectWriter http) (start d : Disk) (temp : FilePath)
        {w' : ObjectWriter http} {d' : Disk}
        → IsWriting http start d temp w content
        → hand_on http codecs os features bs w d ≡ (ok w', d')
        → IsWriting http start d' temp w' (content ++ bs)
          × (w' ≡ record w { file = w'.file; content_length = w'.content_length })
    unfolding hand_on
    hand_on-IsWriting [] content w start d temp v h =
        let (same, after) = pure-ok w d h in rw (same, after, append-nil content) (v, refl)
    hand_on-IsWriting (b ∷ bs) content w start d temp v h =
        elim (branch (length (b ∷ bs) == 0) _ _ d h) [
          | inl (done, _) ↦ absurd (ground arith)
          | inr (more, h1) ↦
              let (_, _, same, _) = write-ok http os features (b ∷ bs) w d h1 in
              (write-IsWriting http os features (b ∷ bs) content w start d temp v h1, rw same refl)
        ]

    -- A codec's step: it hands bytes on and counts what it took.
    codec_step :
        (mk : ObjectWriter http → ℕ → ContentEncoder http codecs) (m : Action (ObjectWriter http))
        (n t : ℕ) (d : Disk) {e' : ℕ × ContentEncoder http codecs} {d' : Disk}
        → (m >>= (λ w. lift (map_ok (mk w) (add_usize n t)) >>= (λ e. pure (t, e)))) d ≡ (ok e', d')
        → (w : ObjectWriter http) × (m d ≡ (ok w, d')) × (e'.1 ≡ mk w (n + t))
    codec_step mk m n t d h =
        let (w, d1, stepped, h1) = >>=-ok m _ d h in
        let (e, counted, h2) = lift-ok (map_ok (mk w) (add_usize n t)) _ d1 h1 in
        let (same, after) = pure-ok (t, e) d1 h2 in
        let (k, added, made) = map_ok-ok (mk w) (add_usize n t) counted in
        (
          w,
          rw after stepped,
          ap (λ x. x.1) same ∙ made ∙ ap (mk w) (add_usize-ok {E = ObjectFileError} n t added),
        )

    -- What one call of an encoder's `write` has done.
    record Step (start d : Disk) (temp : FilePath) (e e' : ContentEncoder http codecs)
        (buf content : Bytes) : Type 0 where
      sent : Bytes
      got : Bytes
      is_writing : IsWriting http start d temp (writer_of e') (content ++ sent)
      outputs_split : (bufs : List Bytes) → outputs (buf ∷ bufs) e ≡ sent ++ outputs bufs e'
      inputs_split : (bufs : List Bytes) → inputs (buf ∷ bufs) e ≡ got ++ inputs bufs e'
      counted : uncompressed_length http codecs e' ≡ uncompressed_length http codecs e + length got
      same : writer_of e' ≡ record (writer_of e) {
        file = (writer_of e').file;
        content_length = (writer_of e').content_length;
      }

    taken_length : (t : ℕ) (buf : Bytes) → t ≤ length buf → t ≡ length (take t buf)
    taken_length t buf h = omega (arith, length-take t buf)

    encoder_write-Step :
        (buf content : Bytes) (e : ContentEncoder http codecs) (start d : Disk) (temp : FilePath)
        {r : ℕ × ContentEncoder http codecs} {d' : Disk}
        → AreFaithful codecs
        → IsWriting http start d temp (writer_of e) content
        → encoder_write http codecs os features buf e d ≡ (ok r, d')
        → Step start d' temp e r.1 buf content
    unfolding uncompressed_length encoder_write record_written
    encoder_write-Step buf content (stored w n) start d temp faithful v h =
        let (w1, written, made) =
          codec_step stored (write http os features buf w) n (length buf) d h in
        let (_, _, same, _) = write-ok http os features buf w d written in
        rw made (record {
          sent = buf;
          got = buf;
          is_writing = write-IsWriting http os features buf content w start d temp v written;
          outputs_split = λ bufs. refl;
          inputs_split = λ bufs. refl;
          counted = refl;
          same = rw same refl;
        })
    encoder_write-Step buf content (zstd_encoder level state w n) start d temp faithful v h =
        let c = codecs.zstd_codec level in
        let (w1, written, made) =
          codec_step (zstd_encoder level (c.next buf state))
            (hand_on http codecs os features (c.emits buf state) w) n (c.takes buf state) d h in
        let (v', same) = hand_on-IsWriting (c.emits buf state) content w start d temp v written in
        rw made (record {
          sent = c.emits buf state;
          got = take (c.takes buf state) buf;
          is_writing = v';
          outputs_split = λ bufs. refl;
          inputs_split = λ bufs. refl;
          counted =
              ap (λ k. n + k)
                (taken_length (c.takes buf state) buf
                  ((faithful.zstd_faithful level).takes_part buf state));
          same = same;
        })
    encoder_write-Step buf content (gzip_encoder level state w n) start d temp faithful v h =
        let c = codecs.gzip_codec level in
        let (w1, written, made) =
          codec_step (gzip_encoder level (c.next buf state))
            (hand_on http codecs os features (c.emits buf state) w) n (c.takes buf state) d h in
        let (v', same) = hand_on-IsWriting (c.emits buf state) content w start d temp v written in
        rw made (record {
          sent = c.emits buf state;
          got = take (c.takes buf state) buf;
          is_writing = v';
          outputs_split = λ bufs. refl;
          inputs_split = λ bufs. refl;
          counted =
              ap (λ k. n + k)
                (taken_length (c.takes buf state) buf
                  ((faithful.gzip_faithful level).takes_part buf state));
          same = same;
        })

    flush_codec-IsWriting :
        (content : Bytes) (e : ContentEncoder http codecs) (start d : Disk) (temp : FilePath)
        {w : ObjectWriter http} {d' : Disk}
        → IsWriting http start d temp (writer_of e) content
        → flush_codec http codecs os features e d ≡ (ok w, d')
        → IsWriting http start d' temp w (content ++ outputs [] e)
          × (w ≡ record (writer_of e) { file = w.file; content_length = w.content_length })
    unfolding flush_codec
    flush_codec-IsWriting content (stored w n) start d temp v h =
        let (same, after) = pure-ok w d h in rw (same, after, append-nil content) (v, refl)
    flush_codec-IsWriting content (zstd_encoder level state w n) start d temp v h =
        hand_on-IsWriting ((codecs.zstd_codec level).rest state) content w start d temp v h
    flush_codec-IsWriting content (gzip_encoder level state w n) start d temp v h =
        hand_on-IsWriting ((codecs.gzip_codec level).rest state) content w start d temp v h

    -- What an encoder that was fed and flushed has done.
    pub record Fed (start d : Disk) (temp : FilePath) (e e' : ContentEncoder http codecs)
        (w : ObjectWriter http) (bufs : List Bytes) (content : Bytes) : Type 0 where
      pub is_writing : IsWriting http start d temp w (content ++ outputs bufs e)
      pub counted :
          uncompressed_length http codecs e'
          ≡ uncompressed_length http codecs e + length (inputs bufs e)
      pub same : w ≡ record (writer_of e) { file = w.file; content_length = w.content_length }

    no_inputs : (e : ContentEncoder http codecs) → inputs [] e ≡ []
    no_inputs (stored w n) = refl
    no_inputs (zstd_encoder level state w n) = refl
    no_inputs (gzip_encoder level state w n) = refl

    pub buffers-Fed :
        (bufs : List Bytes) (content : Bytes) (e : ContentEncoder http codecs) (start d d1 : Disk)
        (temp : FilePath) {e' : ContentEncoder http codecs} {w : ObjectWriter http} {d' : Disk}
        → AreFaithful codecs
        → IsWriting http start d temp (writer_of e) content
        → write_buffers bufs e d ≡ (ok e', d1)
        → flush_codec http codecs os features e' d1 ≡ (ok w, d')
        → Fed start d' temp e e' w bufs content
    buffers-Fed [] content e start d d1 temp faithful v h f =
        let (same, after) = pure-ok e d h in
        let (v', same') = flush_codec-IsWriting content e start d temp v (rw (same, after) at f) in
        rw same (record { is_writing = v'; counted = rw (no_inputs e) (omega arith); same = same' })
    buffers-Fed (buf ∷ bufs) content e start d d1 temp {e'} {w} {d'} faithful v h f =
        let (r, d2, stepped, h1) = >>=-ok (encoder_write http codecs os features buf e) _ d h in
        let s = encoder_write-Step buf content e start d temp faithful v stepped in
        let fed =
          buffers-Fed bufs (content ++ s.sent) r.1 start d2 d1 temp faithful s.is_writing h1 f in
        record {
          is_writing =
              rw (s.outputs_split bufs, ← append_assoc content s.sent (outputs bufs r.1))
                fed.is_writing;
          counted = rw (s.inputs_split bufs) (grind (sizes, fed.counted, s.counted));
          same = fed.same ∙ rw s.same refl;
        }
