-- ===== src/Tags/Keys/MetaKey.antt =====
-- `MetaKey` of tags/meta_key.rs, a newtype over the `HeaderName` of the crate `http`.
use tux_io_encoding.Prelude.{◌+◌, ◌%◌, ◌^◌, ◌≡◌, ◌∙◌, Option, none, some, ◌++◌, arith, length}
use tux_io_encoding.Error.{
  EncodingError, other_decoding_error, Result, ok, err, ◌>>=◌, ◌>>◌, >>=-eq-ok,
}
use tux_io_encoding.Io.{Read, Bytes, AreBytes}
use tux_io_encoding.Codec.{TypedObjectType, Agrees, skip_by_reading}
use tux_io_encoding.Types.Number.{u16_type}
use tux_io_encoding.Types.Number.Agreement.{u16-write}
use tux_io_encoding.Types.Limit.{length_is_allowed, length_is_allowed-ok}
use tux_io_encoding.Types.Block.ByteVec.{
  byte_vec_type, byte_vec_type-Agrees, byte_vec-write, byte_vec-size,
}
use tux_io_encoding.Map.{KeyEq}
use tux_io_encoding.Tags.{TagKeyType}

-- What the crate `http` documents: names are compared as they are, and the text of a name is bytes that parse to it again.
pub record HeaderNames (HeaderName : Type 0) : Type 0 where
  pub as_str : HeaderName → Bytes
  pub of_bytes : Bytes → Option HeaderName
  pub name_eq : KeyEq HeaderName
  pub of_bytes-as_str : (name : HeaderName) → of_bytes (as_str name) ≡ some name
  pub AreBytes-as_str : (name : HeaderName) → AreBytes (as_str name)

module _ {HeaderName : Type 0} (http : HeaderNames HeaderName) where
  -- `HeaderName::from_bytes(..).map(MetaKey).map_err(EncodingError::other)`, and `MetaKey::from_bytes`.
  unfoldable pub meta_key_of_bytes : Bytes → Result EncodingError HeaderName
  meta_key_of_bytes bytes = elim (http.of_bytes bytes) [
    | some name ↦ ok name
    | none ↦ err other_decoding_error
  ]

  unfoldable pub write_meta_key : HeaderName → Result EncodingError Bytes
  write_meta_key name = do
    let bytes = http.as_str name
    length_is_allowed "MetaKey" (length bytes)
    prefix ← u16_type.write (length bytes % 2 ^ 16)
    ok (prefix ++ bytes)

  unfoldable pub read_meta_key : Read HeaderName
  unfolding meta_key_of_bytes
  read_meta_key input = do
    (content, input) ← byte_vec_type.read input
    name ← meta_key_of_bytes content
    ok (name, input)

  unfoldable pub parse_meta_key : Bytes → Result EncodingError HeaderName
  unfolding meta_key_of_bytes
  parse_meta_key bytes = do content ← byte_vec_type.read_from_bytes bytes; meta_key_of_bytes content

  unfoldable pub meta_key_type : TypedObjectType HeaderName
  unfolding write_meta_key read_meta_key parse_meta_key
  meta_key_type = record {
    object = record {
      const_size = λ _. none;
      size = λ name. length (http.as_str name) + 2;
      write = write_meta_key;
      read = read_meta_key;
      read_from_bytes = parse_meta_key;
      read_size = byte_vec_type.read_size;
      skip = skip_by_reading read_meta_key;
    };
    type_key = 12;
  }

  abbrev pub meta_key : TagKeyType HeaderName
  meta_key = record { object = meta_key_type.object; eq = http.name_eq }

  -- Every header name is a valid key.
  abbrev pub IsMetaKey : HeaderName → Type 0
  IsMetaKey name = Unit

  meta_key_of_bytes-as_str : (name : HeaderName) → meta_key_of_bytes (http.as_str name) ≡ ok name
  unfolding meta_key_of_bytes
  meta_key_of_bytes-as_str name = rw (http.of_bytes-as_str name, meta_key_of_bytes)

  write_meta_key-ok :
      (name : HeaderName) (bs : Bytes)
      → write_meta_key name ≡ ok bs
      → byte_vec_type.write (http.as_str name) ≡ ok bs
  unfolding write_meta_key
  write_meta_key-ok name bs h =
      let s = http.as_str name in
      let (u, allowed, h1) = >>=-eq-ok (length_is_allowed "MetaKey" (length s)) _ h in
      let fits = length_is_allowed-ok "MetaKey" (length s) allowed in
      let small : length s % 2 ^ 16 ≡ length s = omega arith in
      byte_vec-write s (http.AreBytes-as_str name) fits ∙ (rw (small, u16-write (length s)) at h1)

  -- The invariant holds of `MetaKey`.
  pub meta_key_type-Agrees : Agrees meta_key_type.object IsMetaKey
  unfolding meta_key_type
  meta_key_type-Agrees = record {
    constant = λ name n h. cc;
    encoded = λ name bs v h.
        byte_vec_type-Agrees.encoded (http.as_str name) bs (http.AreBytes-as_str name)
          (write_meta_key-ok name bs h);
    sized = λ name bs v h.
        byte_vec_type-Agrees.sized (http.as_str name) bs (http.AreBytes-as_str name)
          (write_meta_key-ok name bs h)
        ∙ byte_vec-size (http.as_str name);
    decoded = λ name bs rest v h. rw (
      byte_vec_type-Agrees.decoded (http.as_str name) bs rest (http.AreBytes-as_str name)
          (write_meta_key-ok name bs h),
      meta_key_of_bytes-as_str name,
    );
    parsed = λ name bs rest v h. rw (
      byte_vec_type-Agrees.parsed (http.as_str name) bs rest (http.AreBytes-as_str name)
          (write_meta_key-ok name bs h),
      meta_key_of_bytes-as_str name,
    );
    measured = λ name front bs rest v h. rw (← byte_vec-size (http.as_str name)) (
        byte_vec_type-Agrees.measured (http.as_str name) front bs rest (http.AreBytes-as_str name)
          (write_meta_key-ok name bs h));
  }
