-- ===== src/Wire/Scalars.antt =====
-- Reading back one field of each kind.
-- Code: sdk/typescript/src/gen/pgapp/v1
use text.Mathlib.Text.{◌==◌ as str_eq}
use text.Mathlib.TextEquality.{eq_iff}
use pgapp.Common.{
  ℕ, ◌≡◌, sym, ap, arith, Bool, false, not, some, ◌==◌, String, [], ℤ, pos, is_zero, is_empty,
}
use pgapp.Common.Result.{Result}
use pgapp.Number.{IsInt64, IsUint64}
use pgapp.Wire.{
  Bytes, Runtime, Reader, MessageType, UnknownPolicy, assign, write_if, ◌then_write◌, plain,
  WireType, varint, length_delimited,
}
use pgapp.Wire.Documented.{
  IsDocumented, ReadsBack, FieldNumber, Anything, AreBytes, FitsInt32, FitsUint32,
}
use pgapp.Wire.Fields.{Reads, Reads-if, Reads-field, ParsesTo-assign}

module _ {ℓ} {M : Type ℓ} {runtime : Runtime} (documented : IsDocumented runtime)
    (type : MessageType M) (policy : UnknownPolicy) where
  -- A field of a scalar kind that is skipped at its default.
  scalar_field {κ} :
      {A : Type 0} (Fits : A → Type κ) (put : A → Result Bytes) (get : Reader → Result (A × Reader))
      (back : ReadsBack Fits put get) (t : WireType) (default : A) (field_no : ℕ) (set : A → M)
      (a : A) (written : Bool)
      → FieldNumber field_no
      → type.read_field policy field_no t (set default) ≡ some (assign get set)
      → (written ≡ false → a ≡ default)
      → Fits a
      → Reads runtime type policy
          (plain (set default))
          (write_if written (runtime.writer.tag field_no t then_write put a))
          (plain (set a))
  scalar_field Fits put get back t default field_no set a written numbered case same fits =
      Reads-if written
        (Reads-field documented type policy field_no t (plain (set default)) case numbered
          (ParsesTo-assign Fits put get set back a fits))
        (λ e. ap (λ b. plain (set b)) (sym (same e)))

  pub string_field :
      (field_no : ℕ) (set : String → M) (s : String)
      → FieldNumber field_no
      → type.read_field policy field_no length_delimited (set "")
        ≡ some (assign runtime.reader.string set)
      → Reads runtime type policy
          (plain (set ""))
          (write_if
            (not (str_eq s ""))
            (runtime.writer.tag field_no length_delimited then_write runtime.writer.string s))
          (plain (set s))
  string_field field_no set s numbered case =
      scalar_field Anything _ _ documented.string length_delimited "" field_no set s _ numbered case
        (λ e. ground (arith, eq_iff s "")) tt

  pub bytes_field :
      (field_no : ℕ) (set : Bytes → M) (b : Bytes)
      → FieldNumber field_no
      → type.read_field policy field_no length_delimited (set [])
        ≡ some (assign runtime.reader.bytes set)
      → AreBytes b
      → Reads runtime type policy
          (plain (set []))
          (write_if
            (not (is_empty b))
            (runtime.writer.tag field_no length_delimited then_write runtime.writer.bytes b))
          (plain (set b))
  bytes_field field_no set b numbered case fits =
      scalar_field AreBytes _ _ documented.bytes length_delimited [] field_no set b _ numbered case
        (λ e. ground arith) fits

  pub bool_field :
      (field_no : ℕ) (set : Bool → M) (b : Bool)
      → FieldNumber field_no
      → type.read_field policy field_no varint (set false) ≡ some (assign runtime.reader.bool set)
      → Reads runtime type policy
          (plain (set false))
          (write_if b (runtime.writer.tag field_no varint then_write runtime.writer.bool b))
          (plain (set b))
  bool_field field_no set b numbered case =
      scalar_field Anything _ _ documented.bool varint false field_no set b _ numbered case (λ e. e)
        tt

  pub int32_field :
      (field_no : ℕ) (set : ℤ → M) (z : ℤ)
      → FieldNumber field_no
      → type.read_field policy field_no varint (set (pos 0))
        ≡ some (assign runtime.reader.int32 set)
      → FitsInt32 z
      → Reads runtime type policy
          (plain (set (pos 0)))
          (write_if
            (not (is_zero z))
            (runtime.writer.tag field_no varint then_write runtime.writer.int32 z))
          (plain (set z))
  int32_field field_no set z numbered case fits =
      scalar_field FitsInt32 _ _ documented.int32 varint (pos 0) field_no set z _ numbered case
        (λ e. ground arith) fits

  pub uint32_field :
      (field_no : ℕ) (set : ℕ → M) (n : ℕ)
      → FieldNumber field_no
      → type.read_field policy field_no varint (set 0) ≡ some (assign runtime.reader.uint32 set)
      → FitsUint32 n
      → Reads runtime type policy
          (plain (set 0))
          (write_if
            (not (n == 0))
            (runtime.writer.tag field_no varint then_write runtime.writer.uint32 n))
          (plain (set n))
  uint32_field field_no set n numbered case fits =
      scalar_field FitsUint32 _ _ documented.uint32 varint 0 field_no set n _ numbered case
        (λ e. ground arith) fits

  pub int64_field :
      (field_no : ℕ) (set : String → M) (s : String)
      → FieldNumber field_no
      → type.read_field policy field_no varint (set "0") ≡ some (assign runtime.reader.int64 set)
      → IsInt64 s
      → Reads runtime type policy
          (plain (set "0"))
          (write_if
            (not (str_eq s "0"))
            (runtime.writer.tag field_no varint then_write runtime.writer.int64 s))
          (plain (set s))
  int64_field field_no set s numbered case fits =
      scalar_field IsInt64 _ _ documented.int64 varint "0" field_no set s _ numbered case
        (λ e. ground (arith, eq_iff s "0")) fits

  pub uint64_field :
      (field_no : ℕ) (set : String → M) (s : String)
      → FieldNumber field_no
      → type.read_field policy field_no varint (set "0") ≡ some (assign runtime.reader.uint64 set)
      → IsUint64 s
      → Reads runtime type policy
          (plain (set "0"))
          (write_if
            (not (str_eq s "0"))
            (runtime.writer.tag field_no varint then_write runtime.writer.uint64 s))
          (plain (set s))
  uint64_field field_no set s numbered case fits =
      scalar_field IsUint64 _ _ documented.uint64 varint "0" field_no set s _ numbered case
        (λ e. ground (arith, eq_iff s "0")) fits
