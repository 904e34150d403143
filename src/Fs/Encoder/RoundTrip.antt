-- ===== src/Fs/Encoder/RoundTrip.antt =====
-- Content that was written through an encoder, decoded again.
use tux_io_encoding.Prelude.{
  ℕ, ◌≡◌, refl, sym, ap, ◌∙◌, ◌≢◌, inl, inr, true, some, List, [], arith, ◌==◌, if◌then◌else◌,
  ==_iff, Option-cases, length,
}
use tux_io_encoding.Error.{ok, ok-injective}
use tux_io_encoding.Io.{Bytes}
use tux_io_encoding.Compression.{CompressionTypes, no_compression, zstd, gzip}
use tux_io_encoding.Value.{u64}
use tux_io_encoding.Map.Laws.{lookup-put, same_refl}
use tux_io_encoding.Tags.{insert, get}
use tux_io_encoding.Tags.Keys.MetaKey.{HeaderNames, meta_key}
use tux_io_encoding.Fs.Error.{FilePath}
use tux_io_encoding.Fs.Support.{Features, ensure_supported, is_supported, uncompressed_length_key}
use tux_io_encoding.Fs.Disk.{Disk, System, lift, pure, ◌>>=◌}
use tux_io_encoding.Fs.Disk.Laws.{>>=-ok, lift-ok, lift-same, pure-ok, branch}
use tux_io_encoding.Fs.Writer.{ObjectWriter}
use tux_io_encoding.Fs.Writer.Edited.{edited-IsWriting}
use tux_io_encoding.Fs.Writer.State.{IsWriting}
use tux_io_encoding.Fs.Encoder.{
  Codecs, ContentEncoder, uncompressed_length, flush_codec, encoder_of, content_encoder,
  new_encoder, finish_encoder, decode_content,
}
use tux_io_encoding.Fs.Encoder.Laws.{
  AreFaithful, outputs, inputs, writer_of, write_buffers, buffers-Fed,
}

module _ {HeaderName : Type 0} (http : HeaderNames HeaderName) (codecs : Codecs)
    (features : Features) where
  -- A new encoder for a compression: it has counted nothing, and what it will hand on decodes to what it will take.
  record IsFresh (compression : CompressionTypes) (w : ObjectWriter http)
      (e : ContentEncoder http codecs) : Type 0 where
    holds_writer : writer_of http codecs e ≡ w
    counts_nothing : uncompressed_length http codecs e ≡ 0
    decodes :
        (bufs : List Bytes)
        → decode_content http codecs features compression (outputs http codecs bufs e)
          ≡ ok (inputs http codecs bufs e)

  encoder_of-IsFresh :
      (compression : CompressionTypes) (w : ObjectWriter http) {e : ContentEncoder http codecs}
      → AreFaithful codecs
      → is_supported features compression ≡ true
      → encoder_of http codecs compression w ≡ ok e
      → IsFresh compression w e
  unfolding encoder_of uncompressed_length decode_content is_supported
  encoder_of-IsFresh no_compression w faithful supported h =
      rw (ok-injective (sym h))
        (record { holds_writer = refl; counts_nothing = refl; decodes = λ bufs. refl })
  encoder_of-IsFresh (zstd level) w faithful supported h =
      elim (Option-cases (codecs.zstd_refuses level)) [
        | inl allowed ↦
            let made = ok-injective (sym (rw (encoder_of, allowed) at h)) in
            rw made (record {
              holds_writer = refl;
              counts_nothing = refl;
              decodes = λ bufs. rw (supported, (faithful.zstd_faithful level).decodes bufs) refl;
            })
        | inr (kind, refused) ↦ cc (rw (encoder_of, refused) at h)
      ]
  encoder_of-IsFresh (gzip level) w faithful supported h = rw (ok-injective (sym h)) (record {
    holds_writer = refl;
    counts_nothing = refl;
    decodes = λ bufs. rw (supported, (faithful.gzip_faithful level).decodes bufs) refl;
  })

  ensure_supported-ok :
      (chosen : CompressionTypes) {u : Unit {0}}
      → ensure_supported features chosen ≡ ok u
      → is_supported features chosen ≡ true
  unfolding ensure_supported
  ensure_supported-ok chosen h = ground arith

  -- What `finish` of an encoder leaves in the metadata.
  pub record Recorded (w w' : ObjectWriter http) (stored_length n : ℕ) : Type 0 where
    pub nothing : stored_length ≡ n → w'.metadata ≡ w.metadata
    pub length_kept :
        (key : HeaderName)
        → uncompressed_length_key http ≡ ok key
        → stored_length ≢ n
        → get (meta_key http) key w'.metadata ≡ some (u64 n)

  module _ (os : System) where
    -- The end of `finish`, for the writer that the codec gave back.
    record_length :
        (n : ℕ) (w : ObjectWriter http) (d1 : Disk) {r : ℕ × ObjectWriter http} {d' : Disk}
        → (if w.content_length == n
              then pure (n, w)
              else (lift (uncompressed_length_key http) >>= λ key.
                  pure
                    (n, record w { metadata = (insert (meta_key http) key (u64 n) w.metadata).1 })))
            d1
          ≡ (ok r, d')
        → (d' ≡ d1)
          × (r.0 ≡ n)
          × (r.1 ≡ record w { metadata = r.1.metadata })
          × Recorded w r.1 w.content_length n
    unfolding insert get
    record_length n w d1 h = elim (branch (w.content_length == n) _ _ d1 h) [
      | inl (same_length, h2) ↦
          let (same, after) = pure-ok (n, w) d1 h2 in
          let count : w.content_length ≡ n = (==_iff _ _).0 same_length in
          rw same (
            after,
            refl,
            refl,
            record {
              nothing = λ _. refl;
              length_kept = λ key is_key differs. absurd (differs count);
            },
          )
      | inr (differs, h2) ↦
          let (key, is_key, h3) = lift-ok (uncompressed_length_key http) _ d1 h2 in
          let (same, after) =
            pure-ok (n, record w { metadata = (insert (meta_key http) key (u64 n) w.metadata).1 })
              d1 h3 in
          let apart : w.content_length ≢ n = λ count. cc ((==_iff _ _).1 count) in
          rw same (
            after,
            refl,
            refl,
            record {
              nothing = λ count. absurd (apart count);
              length_kept = λ key' is_key' _.
                  let agree : key ≡ key' = ok-injective (sym is_key ∙ is_key') in
                  rw
                    (
                      ← agree,
                      lookup-put (meta_key http).eq key key (u64 n) w.metadata,
                      same_refl (meta_key http).eq key,
                    )
                    refl;
            },
          )
    ]

    finish_encoder-ok :
        (e : ContentEncoder http codecs) (d : Disk) {r : ℕ × ObjectWriter http} {d' : Disk}
        → finish_encoder http codecs os features e d ≡ (ok r, d')
        → (w : ObjectWriter http) × (flush_codec http codecs os features e d ≡ (ok w, d'))
          × (r.0 ≡ uncompressed_length http codecs e)
          × (r.1 ≡ record w { metadata = r.1.metadata })
          × Recorded w r.1 w.content_length (uncompressed_length http codecs e)
    unfolding finish_encoder
    finish_encoder-ok e d h =
        let (w, d1, flushed, h1) = >>=-ok (flush_codec http codecs os features e) _ d h in
        let (after, count, edited, recorded) =
          record_length (uncompressed_length http codecs e) w d1 h1 in
        (w, flushed ∙ ap (λ x. (ok w, x)) (sym after), count, edited, recorded)

    -- With codecs that return what they took, for an open writer that has no content yet: where an encoder of it is
    -- made, fed with buffers and finished, each with success, what stands behind the prefix decodes to the bytes
    -- that it took, all of them where nothing is compressed; the result is their number; and the metadata has that
    -- number under its key where it differs from the number of bytes stored, and is unchanged where it does not.
    pub encoder-round_trip :
        (bufs : List Bytes) (w : ObjectWriter http) (start d d0 d1 : Disk) (temp : FilePath)
        {e e' : ContentEncoder http codecs} {r : ℕ × ObjectWriter http} {d2 : Disk}
        → AreFaithful codecs
        → IsWriting http start d temp w []
        → content_encoder http codecs features w d ≡ (ok e, d0)
        → write_buffers http codecs os features bufs e d0 ≡ (ok e', d1)
        → finish_encoder http codecs os features e' d1 ≡ (ok r, d2)
        → (content : Bytes) × IsWriting http start d2 temp r.1 content
          × (decode_content http codecs features w.compression content
              ≡ ok (inputs http codecs bufs e))
          × (r.0 ≡ length (inputs http codecs bufs e))
          × Recorded w r.1 (length content) r.0
    unfolding content_encoder new_encoder
    encoder-round_trip bufs w start d d0 d1 temp {e} {e'} {r} {d2} faithful v made fed finished =
        let opened : ObjectWriter http = record w { allow_raw_writes = true } in
        let (u, is_supported', h1) = lift-ok (ensure_supported features w.compression) _ d made in
        let (is_made, same_disk) = lift-same (encoder_of http codecs w.compression opened) d h1 in
        let fresh =
          encoder_of-IsFresh w.compression opened faithful
            (ensure_supported-ok w.compression is_supported') is_made in
        let (w1, flushed, count, edited, recorded) = finish_encoder-ok e' d1 finished in
        let v0 = edited-IsWriting http start d temp w [] w.metadata true v in
        let f =
          buffers-Fed http codecs os features bufs [] e start d0 d1 temp faithful
            (rw (fresh.holds_writer, same_disk) v0) fed flushed in
        let same_metadata : w1.metadata ≡ w.metadata = rw (f.same, fresh.holds_writer) refl in
        (
          outputs http codecs bufs e,
          rw edited (
              edited-IsWriting http start d2 temp w1 _ r.1.metadata w1.allow_raw_writes
                f.is_writing),
          fresh.decodes bufs,
          count ∙ f.counted ∙ rw fresh.counts_nothing (omega arith),
          record {
            nothing = λ h. recorded.nothing (f.is_writing.counted ∙ h ∙ count) ∙ same_metadata;
            length_kept = λ key is_key h. rw count (
                recorded.length_kept key is_key
                  (λ g. h (sym f.is_writing.counted ∙ g ∙ sym count)));
          },
        )
