-- ===== src/Fs/Writer/State.antt =====
-- The invariant of an `ObjectWriter` that is open, and the operations that keep it.
use tux_io_encoding.Prelude.{sizes}
use tux_io_encoding.Prelude.{
  ℕ, zero, suc, ◌+◌, ◌^◌, ◌≤◌, ◌<◌, ◌≡◌, refl, ap, ◌∙◌, inl, inr, true, false, not, none, some, [],
  ◌++◌, append-nil, append_assoc, arith, ◌==◌, ==_iff, ==_self, length, drop, take-append-drop,
  drop_beyond,
}
use tux_io_encoding.Error.{other, ok}
use tux_io_encoding.Fs.TempFile.{create_temp_file, temp_name}
use tux_io_encoding.Fs.Layout.{SectionLayout, compute}
use tux_io_encoding.Fs.Prefix.{metadata_type}
use tux_io_encoding.Tags.{tags_type}
use tux_io_encoding.Tags.Keys.Text.{string_key}
use tux_io_encoding.Fs.Error.{io}
use tux_io_encoding.Fs.Writer.{new_writer, string_key}
use tux_io_encoding.Fs.TempFile.{create_temp_file, temp_name}
use tux_io_encoding.Fs.Layout.{SectionLayout, compute}
use tux_io_encoding.Fs.Prefix.{metadata_type}
use tux_io_encoding.Tags.{tags_type}
use tux_io_encoding.Tags.Keys.Text.{string_key}
use tux_io_encoding.Fs.Error.{io}
use tux_io_encoding.Fs.Writer.{new_writer, tags_type}
use tux_io_encoding.Fs.TempFile.{create_temp_file, temp_name}
use tux_io_encoding.Fs.Layout.{SectionLayout, compute}
use tux_io_encoding.Fs.Prefix.{metadata_type}
use tux_io_encoding.Tags.{tags_type}
use tux_io_encoding.Tags.Keys.Text.{string_key}
use tux_io_encoding.Fs.Error.{io}
use tux_io_encoding.Fs.Writer.{new_writer, metadata_type}
use tux_io_encoding.Fs.TempFile.{create_temp_file, temp_name}
use tux_io_encoding.Fs.Layout.{SectionLayout, compute}
use tux_io_encoding.Fs.Prefix.{metadata_type}
use tux_io_encoding.Tags.{tags_type}
use tux_io_encoding.Tags.Keys.Text.{string_key}
use tux_io_encoding.Fs.Error.{io}
use tux_io_encoding.Fs.Writer.{new_writer, compute}
use tux_io_encoding.Fs.Error.{io}
use tux_io_encoding.Io.{Bytes}
use tux_io_encoding.Word.Usize.{add_usize, add_usize-ok}
use tux_io_encoding.Tags.Keys.MetaKey.{HeaderNames}
use tux_io_encoding.Fs.Error.{FilePath, ObjectFileError}
use tux_io_encoding.Fs.Object.{ContentReader, read_content}
use tux_io_encoding.Fs.Writer.{copy_buffer}
use tux_io_encoding.Fs.Object.Content.{
  read_content-remaining, read_content_end, left, read_content_lem,
}
use tux_io_encoding.Fs.Support.{Features, ensure_supported}
use tux_io_encoding.Fs.Disk.{Disk, Handle, System, same_path, write_bytes, write_file, set_bytes}
use tux_io_encoding.Fs.Disk.Laws.{
  branch, pure-ok, guard-ok, >>=-ok, lift-ok, write_bytes-append, write_file-ok, same_path_self,
}
use tux_io_encoding.Fs.TempFile.Laws.{Creates, try_names-Creates}
use tux_io_encoding.Fs.TempFile.{create_temp_file, temp_name}
use tux_io_encoding.Fs.Layout.{SectionLayout, compute}
use tux_io_encoding.Fs.Prefix.{metadata_type}
use tux_io_encoding.Tags.{tags_type}
use tux_io_encoding.Tags.Keys.Text.{string_key}
use tux_io_encoding.Fs.Error.{io}
use tux_io_encoding.Fs.Writer.{new_writer, ObjectWriter, CreateOptions, create, write, copy_reads}

add_usize-small : (a b : ℕ) {c : ℕ} → add_usize {E = ObjectFileError} a b ≡ ok c → a + b < 2 ^ 64
unfolding add_usize
add_usize-small a b h = ground arith

module _ {HeaderName : Type 0} (http : HeaderNames HeaderName) where
  -- Since the disk `start`, the writer has put `content` behind its prefix in a new file under the name `temp`, and
  -- changed no other file and no other name.
  pub record IsWriting (start d : Disk) (temp : FilePath) (w : ObjectWriter http) (content : Bytes)
      : Type 0 where
    pub has_temp : w.temp_path ≡ some temp
    pub unused : start.names temp ≡ none
    pub named : d.names temp ≡ some w.file.id
    pub is_new : start.next ≤ w.file.id
    pub is_known : w.file.id < d.next
    pub names_kept : (q : FilePath) → same_path temp q ≡ false → d.names q ≡ start.names q
    pub bytes_kept : (i : ℕ) → i < start.next → d.bytes_of i ≡ start.bytes_of i
    pub counted : w.content_length ≡ length content
    pub small : w.content_length < 2 ^ 64
    pub at_end : w.file.position ≡ w.layout.content_start + length content
    pub stored : drop w.layout.content_start (d.bytes_of w.file.id) ≡ content

  module _ (os : System) (features : Features) where
    -- What a successful `create` has done.
    pub create-ok :
        (path : FilePath) (options : CreateOptions http) (d : Disk) {w : ObjectWriter http}
        {d' : Disk}
        → create http os features path options d ≡ (ok w, d')
        → (layout : SectionLayout) × (file : Handle) × (temp : FilePath) × (compute options.layout
              ((metadata_type http).size options.metadata)
              ((tags_type string_key).size options.tags)
            ≡ ok layout)
          × Creates os path d d' file temp
          × (w ≡ new_writer http path options layout file temp)
    unfolding create
    create-ok path options d h =
        let (u, _, h1) = lift-ok (ensure_supported features options.compression) _ d h in
        let (layout, computed, h2) =
          lift-ok
            (compute options.layout ((metadata_type http).size options.metadata)
              ((tags_type string_key).size options.tags))
            _ d h1 in
        let ((file, temp), d1, reserved, h3) = >>=-ok (create_temp_file os path) _ d h2 in
        let (same, after) = pure-ok (new_writer http path options layout file temp) d1 h3 in
        (
          layout,
          file,
          temp,
          computed,
          rw after (try_names-Creates os path 32 temp file d d1 reserved),
          same,
        )

    Creates-IsWriting :
        (path temp : FilePath) (options : CreateOptions http) (layout : SectionLayout)
        (file : Handle) (d d' : Disk)
        → Creates os path d d' file temp
        → IsWriting d d' temp (new_writer http path options layout file temp) []
    Creates-IsWriting path temp options layout file d d' c = rw c.opened (record {
      has_temp = refl;
      unused = c.unused;
      named = rw (c.names_after temp, same_path_self temp) refl;
      is_new = omega arith;
      is_known = omega (arith, c.next_after);
      names_kept = λ q apart. rw (c.names_after q, apart) refl;
      bytes_kept = λ i old.
          let newer : (i == d.next) ≡ false = ground arith in c.bytes_after i ∙ rw newer refl;
      counted = refl;
      small = omega arith;
      at_end = omega arith;
      stored =
          rw (c.bytes_after d.next, ==_self d.next)
            (drop_beyond {A = ℕ} layout.content_start [] (omega arith));
    })

    -- A writer that was created has no content yet.
    pub create-IsWriting :
        (path : FilePath) (options : CreateOptions http) (d : Disk) {w : ObjectWriter http}
        {d' : Disk}
        → create http os features path options d ≡ (ok w, d')
        → (layout : SectionLayout) × (file : Handle) × (temp : FilePath) × (counter : ℕ) × (temp
            ≡ temp_name os path counter)
          × (compute options.layout
                ((metadata_type http).size options.metadata)
                ((tags_type string_key).size options.tags)
              ≡ ok layout)
          × (w ≡ new_writer http path options layout file temp)
          × IsWriting d d' temp w []
    create-IsWriting path options d {w} {d'} h =
        let (layout, file, temp, computed, c, same) = create-ok path options d h in
        (
          layout,
          file,
          temp,
          c.counter,
          c.is_temp,
          computed,
          same,
          rw same (Creates-IsWriting path temp options layout file d d' c),
        )

    -- What a successful `write` has done.
    pub write-ok :
        (bs : Bytes) (w : ObjectWriter http) (d : Disk) {w' : ObjectWriter http} {d' : Disk}
        → write http os features bs w d ≡ (ok w', d')
        → (w.allow_raw_writes ≡ true)
          × (w.content_length + length bs < 2 ^ 64)
          × (w' ≡ record w {
            file = record w.file { position = w.file.position + length bs };
            content_length = w.content_length + length bs;
          })
          × (d' ≡ set_bytes w.file.id (write_bytes w.file.position bs (d.bytes_of w.file.id)) d)
    unfolding write
    write-ok bs w d h =
        let (open_, h1) = guard-ok (not w.allow_raw_writes) (io other) _ d h in
        let (file, d1, written, h2) = >>=-ok (write_file os bs w.file) _ d h1 in
        let (n, counted, h3) = lift-ok (add_usize w.content_length (length bs)) _ d1 h2 in
        let (same, after) = pure-ok (record w { file = file; content_length = n }) d1 h3 in
        let (moved, changed) = write_file-ok os bs w.file d written in
        (
          ground arith,
          add_usize-small w.content_length (length bs) counted,
          same
              ∙ rw (moved, add_usize-ok {E = ObjectFileError} w.content_length (length bs) counted)
                  refl,
          after ∙ changed,
        )

    -- A write adds to the content.
    pub write-IsWriting :
        (bs content : Bytes) (w : ObjectWriter http) (start d : Disk) (temp : FilePath)
        {w' : ObjectWriter http} {d' : Disk}
        → IsWriting start d temp w content
        → write http os features bs w d ≡ (ok w', d')
        → IsWriting start d' temp w' (content ++ bs)
    write-IsWriting bs content w start d temp v h =
        let (_, small, same, after) = write-ok bs w d h in
        rw (same, after, v.at_end)
          (record {
            has_temp = v.has_temp;
            unused = v.unused;
            named = v.named;
            is_new = v.is_new;
            is_known = v.is_known;
            names_kept = v.names_kept;
            bytes_kept = λ i old.
                let newer : (i == w.file.id) ≡ false = ground (arith, v.is_new) in
                rw newer (v.bytes_kept i old);
            counted = grind (sizes, v.counted);
            small = small;
            at_end = grind sizes;
            stored = rw (==_self w.file.id) (
                write_bytes-append w.layout.content_start bs content (d.bytes_of w.file.id)
                  v.stored);
          })

    -- Copying adds what the source has left, and changes nothing else of the writer.
    pub copy_reads-IsWriting :
        (n : ℕ) (source : ContentReader) (content : Bytes) (w : ObjectWriter http) (start d : Disk)
        (temp : FilePath) {w' : ObjectWriter http} {d' : Disk}
        → source.remaining ≤ n
        → IsWriting start d temp w content
        → copy_reads http os features n source w d ≡ (ok w', d')
        → IsWriting start d' temp w' (content ++ left source)
          × (w' ≡ record w { file = w'.file; content_length = w'.content_length })
    unfolding copy_reads
    copy_reads-IsWriting zero source content w start d temp enough v h =
        let (same, after) = pure-ok w d h in
        let done : source.remaining ≡ 0 = omega arith in
        rw (same, after, done, append-nil content) (v, refl)
    copy_reads-IsWriting (suc n) source content w start d temp enough v h =
        let bs : Bytes = (read_content copy_buffer source).0 in
        let (now, later) = read_content_lem copy_buffer source in
        elim (branch (length bs == 0) _ _ d h) [
          | inl (done, h1) ↦
              let (same, after) = pure-ok w d h1 in
              let nothing : left source ≡ [] =
                read_content_end copy_buffer source (omega arith) ((==_iff _ _).0 done) in
              rw (same, after, nothing, append-nil content) (v, refl)
          | inr (more, h1) ↦
              let (w1, d1, written, rest) = >>=-ok (write http os features bs w) _ d h1 in
              let (_, _, same, _) = write-ok bs w d written in
              let r = read_content-remaining copy_buffer source in
              let (v', same') =
                copy_reads-IsWriting n (read_content copy_buffer source).1 (content ++ bs) w1 start
                  d1 temp (ground arith) (write-IsWriting bs content w start d temp v written)
                  rest in
              let all : (content ++ bs) ++ left (read_content copy_buffer source).1
                  ≡ content ++ left source =
                append_assoc content bs _
                ∙ ap (λ xs. content ++ xs)
                    (rw (now, later) (take-append-drop copy_buffer (left source))) in
              (rw all at v', same' ∙ rw same refl)
        ]
