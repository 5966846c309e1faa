-- ===== src/Wire/Documented.antt =====
-- What the package `@protobuf-ts/runtime` documents of its reader and writer.
-- Code: sdk/typescript/src/gen/pgapp/v1
use pgapp.Common.{ℕ, ◌+◌, ◌^◌, ◌≤◌, ◌<◌, ◌≡◌, [], ◌++◌, All, length, ℤ, pos, pos_part, neg_part}
use pgapp.Common.{String}
use pgapp.Common.Result.{Result, ok}
use pgapp.Number.{IsInt64, IsUint64}
use pgapp.Wire.{Bytes, WireType, Reader, Runtime}

abbrev pub at : ℕ → Bytes → Reader
at p b = record { pos = p; rest = b }

-- Reading what was written gives the value back, and moves past it.
abbrev pub ReadsBack {ℓ κ} :
    {A : Type ℓ} → (A → Type κ) → (A → Result Bytes) → (Reader → Result (A × Reader)) → Type (ℓ ⊔ κ)
ReadsBack {A} Fits put get =
    (a : A)
    → Fits a
    → (w : Bytes) → put a ≡ ok w
    → (p : ℕ) (rest : Bytes) → get (at p (w ++ rest)) ≡ ok (a, at (p + length w) rest)

-- The reader never goes back.
abbrev pub Advances {ℓ} : {A : Type ℓ} → (Reader → Result (A × Reader)) → Type ℓ
Advances {A} get = (r : Reader) (a : A) (r' : Reader) → get r ≡ ok (a, r') → r.pos ≤ r'.pos

abbrev pub FieldNumber : ℕ → Type 0
FieldNumber field_no = (0 < field_no) × (field_no < 2 ^ 29)

abbrev pub FitsInt32 : ℤ → Type 0
FitsInt32 z = (pos_part z < 2 ^ 31) × (neg_part z ≤ 2 ^ 31)

abbrev pub FitsUint32 : ℕ → Type 0
FitsUint32 n = n < 2 ^ 32

abbrev pub AreBytes : Bytes → Type 0
AreBytes = All (λ b. b < 256)

abbrev pub Anything {ℓ} : {A : Type ℓ} → A → Type 0
Anything _ = Unit

pub record IsDocumented (runtime : Runtime) : Type 0 where
  pub tag :
      (field_no : ℕ)
      → FieldNumber field_no
      → (t : WireType) (w : Bytes) → runtime.writer.tag field_no t ≡ ok w
      → (p : ℕ) (rest : Bytes)
      → runtime.reader.tag (at p (w ++ rest)) ≡ ok ((field_no, t), at (p + length w) rest)
  pub string : ReadsBack Anything runtime.writer.string runtime.reader.string
  pub bytes : ReadsBack AreBytes runtime.writer.bytes runtime.reader.bytes
  pub bool : ReadsBack Anything runtime.writer.bool runtime.reader.bool
  pub int32 : ReadsBack FitsInt32 runtime.writer.int32 runtime.reader.int32
  pub uint32 : ReadsBack FitsUint32 runtime.writer.uint32 runtime.reader.uint32
  pub int64 : ReadsBack IsInt64 runtime.writer.int64 runtime.reader.int64
  pub uint64 : ReadsBack IsUint64 runtime.writer.uint64 runtime.reader.uint64
  -- `join` writes the length of the bytes since `fork` as a `uint32`, then the bytes.
  pub join :
      (b w : Bytes)
      → runtime.writer.join b ≡ ok w
      → (p : ℕ) (rest : Bytes)
      → (k : ℕ) × (k + length b ≡ length w)
        × (runtime.reader.uint32 (at p (w ++ rest)) ≡ ok (length b, at (p + k) (b ++ rest)))
  -- A length that fits is read as an `int32` too: both are varints.
  pub join_int32 :
      (b w : Bytes)
      → runtime.writer.join b ≡ ok w
      → length b < 2 ^ 31
      → (p : ℕ) (rest : Bytes)
      → (k : ℕ) × (k + length b ≡ length w)
        × (runtime.reader.int32 (at p (w ++ rest)) ≡ ok (pos (length b), at (p + k) (b ++ rest)))
  -- A message with no unknown field has none to write.
  pub no_unknown : runtime.handler.on_write [] ≡ ok []
  -- A tag takes a byte at least.
  pub tag_moves :
      (r : Reader) (t : ℕ × WireType) (r' : Reader)
      → runtime.reader.tag r ≡ ok (t, r')
      → r.pos < r'.pos
  pub skip_moves : (t : WireType) → Advances (runtime.reader.skip t)
  pub string_moves : Advances runtime.reader.string
  pub bytes_moves : Advances runtime.reader.bytes
  pub bool_moves : Advances runtime.reader.bool
  pub int32_moves : Advances runtime.reader.int32
  pub uint32_moves : Advances runtime.reader.uint32
  pub int64_moves :
      (r : Reader) (s : String) (r' : Reader) → runtime.reader.int64 r ≡ ok (s, r') → r.pos < r'.pos
  pub uint64_moves : Advances runtime.reader.uint64
