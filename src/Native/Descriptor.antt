-- ===== src/Native/Descriptor.antt =====
-- crates/protocol/src/native.rs: `StreamDescriptor`, its labels and its canonical bytes.
use glacialcast.Prelude.{
  ℕ, ◌+◌, ◌*◌, Bool, true, false, not, ◌&&◌, ◌||◌, List, [], ◌∷◌, Bytes, length, codes, String, ℤ,
  Result, ok, ◌>>=◌, ◌>>◌, fail_if, ok_or, ltb, leb, ◌==◌, if◌then◌else◌, is_empty, same_bytes,
}
use glacialcast.Native.Types.{
  IdentityPublic, IdentitySecret, NativeStreamError, invalid_metadata, payload_too_large, CodecId,
  h264_annex_b, StreamDescriptorBody, StreamDescriptor, stream_format_version,
}
use glacialcast.Native.External.{External}
use glacialcast.Native.Identity.{public_of, sign, verify, validate}
use glacialcast.Native.Object.{from_identity, from_signature}

abbrev pub max_descriptor_len : ℕ
max_descriptor_len = 64 * 1024

abbrev pub descriptor_domain : Bytes
descriptor_domain = codes "glacialcast-stream-descriptor-v2"

abbrev pub max_stream_name_len : ℕ
max_stream_name_len = 128

abbrev pub max_source_label_len : ℕ
max_source_label_len = 256

-- The standard library's `char::is_control`, of the general category Cc.
abbrev pub is_control : ℕ → Bool
is_control c = ltb c 0x20 || leb 0x7f c && ltb c 0xa0

-- Its `char::is_whitespace`, of the property White_Space.
abbrev pub is_whitespace : ℕ → Bool
is_whitespace c =
    leb 9 c && leb c 13
    || c == 0x20
    || c == 0x85
    || c == 0xa0
    || c == 0x1680
    || leb 0x2000 c && leb c 0x200a
    || c == 0x2028
    || c == 0x2029
    || c == 0x202f
    || c == 0x205f
    || c == 0x3000

-- `str::len`, in bytes of UTF-8.
abbrev pub utf8_width : ℕ → ℕ
utf8_width c =
    if ltb c 0x80 then 1 else (if ltb c 0x800 then 2 else (if ltb c 0x1_0000 then 3 else 4))

unfoldable pub utf8_len : List ℕ → ℕ
utf8_len [] = 0
utf8_len (c ∷ cs) = utf8_width c + utf8_len cs

-- `str::trim`, from the front and from the end.
unfoldable pub trim_start : List ℕ → List ℕ
trim_start [] = []
trim_start (c ∷ cs) = if is_whitespace c then trim_start cs else c ∷ cs

abbrev pub cons_trimmed : ℕ → List ℕ → List ℕ
cons_trimmed c [] = if is_whitespace c then [] else c ∷ []
cons_trimmed c (d ∷ ds) = c ∷ (d ∷ ds)

unfoldable pub trim_end : List ℕ → List ℕ
trim_end [] = []
trim_end (c ∷ cs) = cons_trimmed c (trim_end cs)

unfoldable pub trim : List ℕ → List ℕ
unfolding trim_start trim_end
trim cs = trim_end (trim_start cs)

unfoldable pub any_control : List ℕ → Bool
any_control [] = false
any_control (c ∷ cs) = is_control c || any_control cs

unfoldable pub validate_label : List ℕ → ℕ → String → Result NativeStreamError (Unit {0})
unfolding utf8_len trim any_control
validate_label value max error =
    fail_if
      (is_empty value
        || ltb max (utf8_len value)
        || not (same_bytes (trim value) value)
        || any_control value)
      (invalid_metadata error)

-- `codecs == [CodecId::H264AnnexB]`.
abbrev pub supported_codecs : List CodecId → Bool
supported_codecs [] = false
supported_codecs (h264_annex_b ∷ []) = true
supported_codecs (c ∷ (d ∷ ds)) = false

abbrev pub new_body : IdentityPublic → ℕ → List ℕ → List ℕ → Bool → ℤ → StreamDescriptorBody
new_body public stream_id name source_label cursor created_at_ms = record {
  version = stream_format_version;
  publisher = public;
  stream_id = stream_id;
  name = name;
  source_label = source_label;
  codecs = h264_annex_b ∷ [];
  cursor = cursor;
  created_at_ms = created_at_ms;
}

module _ (ext : External) where
  unfoldable pub validate_descriptor_body :
      StreamDescriptorBody → Result NativeStreamError (Unit {0})
  validate_descriptor_body body = do
    fail_if (not (body.version == stream_format_version))
        (NativeStreamError.unsupported_version body.version)
    from_identity (validate ext body.publisher)
    fail_if (body.stream_id == 0) (invalid_metadata "nil stream ID")
    validate_label body.name max_stream_name_len "invalid stream name"
    validate_label body.source_label max_source_label_len "invalid source label"
    fail_if (not (supported_codecs body.codecs))
        (invalid_metadata "unsupported or duplicate codec list")

  -- `StreamDescriptor::new`.
  unfoldable pub new_descriptor :
      IdentitySecret → ℕ → List ℕ → List ℕ → Bool → ℤ → Result NativeStreamError StreamDescriptor
  new_descriptor publisher stream_id name source_label cursor created_at_ms = do
    public ← from_identity (public_of ext publisher)
    let body = new_body public stream_id name source_label cursor created_at_ms
    validate_descriptor_body body
    signature ←
        from_identity (sign ext publisher descriptor_domain (ext.descriptor_body_bytes body))
    ok (record { body = body; signature = signature })

  unfoldable pub verify_descriptor : StreamDescriptor → Result NativeStreamError (Unit {0})
  verify_descriptor d = do
    validate_descriptor_body d.body
    from_signature (
        verify ext d.body.publisher descriptor_domain (ext.descriptor_body_bytes d.body)
          d.signature)

  unfoldable pub encode_descriptor : StreamDescriptor → Result NativeStreamError Bytes
  encode_descriptor d = do
    verify_descriptor d
    fail_if (ltb max_descriptor_len (length (ext.descriptor_bytes d))) payload_too_large
    ok (ext.descriptor_bytes d)

  unfoldable pub decode_descriptor : Bytes → Result NativeStreamError StreamDescriptor
  decode_descriptor bytes = do
    fail_if (ltb max_descriptor_len (length bytes)) payload_too_large
    (d, remainder) ← ok_or (ext.take_descriptor bytes) NativeStreamError.postcard
    fail_if (not (is_empty remainder)) (invalid_metadata "trailing descriptor data")
    verify_descriptor d
    encoded ← encode_descriptor d
    fail_if (not (same_bytes encoded bytes)) (invalid_metadata "noncanonical descriptor")
    ok d
