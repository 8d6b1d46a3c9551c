-- ===== src/Proxy/Body.antt =====
-- The reader of request bodies in pkg/proxy/response_writer.go. The reader that it wraps is a
-- parameter: what a call of Read with a buffer of some size puts into the buffer, and its error.
use vllm_chill.Prelude.{
  ℕ, ◌+◌, Bytes, Option, none, some, Error, List, [], ◌∷◌, ◌++◌, length, take, drop, length-append,
  take-append-drop, append_assoc, arith, ◌≡◌, refl, ap, ◌∙◌,
}

-- io.ReadCloser
pub record Source : Type 1 where
  pub State : Type 0
  pub read : ℕ → State → Bytes × Option Error × State

-- bodyReader
pub record BodyReader (source : Source) : Type 0 where
  pub state : source.State
  pub bytes_read : ℕ

module _ (source : Source) where
  -- newBodyReader
  unfoldable pub new_body_reader : source.State → BodyReader source
  new_body_reader s = record { state = s; bytes_read = 0 }

  -- Read
  unfoldable pub read : ℕ → BodyReader source → Bytes × Option Error × BodyReader source
  read size b =
      let (got, e, s) = source.read size b.state in
      (got, e, record { state = s; bytes_read = b.bytes_read + length got })

  -- calls of Read with these sizes, and the bytes that they gave
  unfoldable pub read_each : List ℕ → BodyReader source → Bytes × BodyReader source
  unfolding read
  read_each [] b = ([], b)
  read_each (size ∷ sizes) b =
      let (got, e, b') = read size b in let (rest, end) = read_each sizes b' in (got ++ rest, end)

  read_each-count :
      (sizes : List ℕ) (b : BodyReader source)
      → (read_each sizes b).1.bytes_read ≡ b.bytes_read + length (read_each sizes b).0
  unfolding read_each read
  read_each-count [] b = omega arith
  read_each-count (size ∷ sizes) b =
      let (got, e, b') = read size b in
      omega (arith, read_each-count sizes b', length-append got (read_each sizes b').0)

  -- However a body is read, BytesRead is the number of bytes that the reader gave.
  pub new_body_reader-count :
      (sizes : List ℕ) (s : source.State)
      → (read_each sizes (new_body_reader s)).1.bytes_read
        ≡ length (read_each sizes (new_body_reader s)).0
  unfolding new_body_reader
  new_body_reader-count sizes s =
      read_each-count sizes (record { state = s; bytes_read = 0 }) ∙ omega arith

-- bytes.NewReader: the bytes that are left; io.EOF where there are none. Its error is not looked at.
abbrev pub byte_source : Error → Source
byte_source eof = record {
  State = Bytes;
  read = λ size s. (take size s, elim s [ [] ↦ some eof | c ∷ cs ↦ none ], drop size s);
}

-- newBodyReaderFromBytes
unfoldable pub new_body_reader_from_bytes : (eof : Error) → Bytes → BodyReader (byte_source eof)
unfolding new_body_reader
new_body_reader_from_bytes eof body = new_body_reader (byte_source eof) body

bytes_are_kept :
    (eof : Error) (sizes : List ℕ) (b : BodyReader (byte_source eof))
    → let (got, b') = read_each (byte_source eof) sizes b in got ++ b'.state ≡ b.state
unfolding read_each read
bytes_are_kept eof [] b = refl
bytes_are_kept eof (size ∷ sizes) b =
    let b' = (read (byte_source eof) size b).2 in
    append_assoc (take size b.state) (read_each (byte_source eof) sizes b').0
      (read_each (byte_source eof) sizes b').1.state
    ∙ ap (λ s. take size b.state ++ s) (bytes_are_kept eof sizes b')
    ∙ take-append-drop size b.state

-- A body that was read to find the model is given to the backend unchanged: however it is read
-- again, what was read and what is left are the body.
pub new_body_reader_from_bytes-keeps :
    (eof : Error) (body : Bytes) (sizes : List ℕ)
    → let (got, b) = read_each (byte_source eof) sizes (new_body_reader_from_bytes eof body) in
      got ++ b.state ≡ body
unfolding new_body_reader_from_bytes new_body_reader
new_body_reader_from_bytes-keeps eof body sizes =
    bytes_are_kept eof sizes (new_body_reader (byte_source eof) body)
