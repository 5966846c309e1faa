-- ===== src/Wire.antt =====
-- The runtime that the generated message classes call, and what the classes share.
-- Code: the `internalBinaryRead` and `internalBinaryWrite` methods of the classes in
-- sdk/typescript/src/gen/pgapp/v1/*.ts. The runtime itself, the package `@protobuf-ts/runtime`,
-- is an interface: `BinaryWriter`, `BinaryReader` and `UnknownFieldHandler`, with its documented
-- behaviour in Wire/Documented.antt.
pub mod Documented
pub mod Loop
pub mod Fields
pub mod Scalars
pub mod Nested
pub mod Packed
use pgapp.Common.{
  ℕ, zero, suc, ◌+◌, String, Bool, true, false, Option, none, some, List, [], ◌∷◌, ◌++◌, ltb,
  length, if◌then◌else◌, ℤ, pos_part, template,
}
use pgapp.Number.{decimal}
use pgapp.Common.Result.{Thrown, Result, ok, throw}

abbrev pub Bytes : Type 0
Bytes = List ℕ

pub data WireType : Type 0 where
  varint bit64 length_delimited start_group end_group bit32 : WireType

abbrev pub is_length_delimited : WireType → Bool
is_length_delimited length_delimited = true
is_length_delimited _ = false

-- `reader.pos`, and the bytes of the buffer from there on.
pub record Reader : Type 0 where
  pub pos : ℕ
  pub rest : Bytes

-- What a call of the writer appends, or that it throws. `join` is given what was written since the
-- matching `fork`.
pub record BinaryWriter : Type 0 where
  pub tag : ℕ → WireType → Result Bytes
  pub string : String → Result Bytes
  pub bytes : Bytes → Result Bytes
  pub bool : Bool → Result Bytes
  pub int32 : ℤ → Result Bytes
  pub uint32 : ℕ → Result Bytes
  pub int64 : String → Result Bytes
  pub uint64 : String → Result Bytes
  pub join : Bytes → Result Bytes

-- `int64` and `uint64` stand for the call and its `toString()`.
pub record BinaryReader : Type 0 where
  pub tag : Reader → Result ((ℕ × WireType) × Reader)
  pub skip : WireType → Reader → Result (Bytes × Reader)
  pub string : Reader → Result (String × Reader)
  pub bytes : Reader → Result (Bytes × Reader)
  pub bool : Reader → Result (Bool × Reader)
  pub int32 : Reader → Result (ℤ × Reader)
  pub uint32 : Reader → Result (ℕ × Reader)
  pub int64 : Reader → Result (String × Reader)
  pub uint64 : Reader → Result (String × Reader)

pub record UnknownField : Type 0 where
  pub field_no : ℕ
  pub wire_type : WireType
  pub content : Bytes

pub record UnknownFieldHandler : Type 0 where
  pub on_read : List UnknownField → UnknownField → List UnknownField
  pub on_write : List UnknownField → Result Bytes

pub record Runtime : Type 0 where
  pub writer : BinaryWriter
  pub reader : BinaryReader
  pub handler : UnknownFieldHandler

-- A message object: the fields that its interface declares, and the unknown fields that the
-- runtime keeps on it under a symbol.
pub record Message {ℓ} (M : Type ℓ) : Type ℓ where
  pub body : M
  pub unknown : List UnknownField

abbrev pub plain {ℓ} : {M : Type ℓ} → M → Message M
plain body = record { body = body; unknown = [] }

-- `options.readUnknownField`; a handler function of the caller's own is left out.
pub data UnknownPolicy : Type 0 where
  refuse keep discard : UnknownPolicy

-- A read returns, throws, or (in the model alone) runs out of fuel.
pub data Outcome {ℓ} (A : Type ℓ) : Type ℓ where
  done : A → Outcome A
  thrown : Thrown → Outcome A
  out_of_fuel : Outcome A

infixl 5 ◌>>=◌
abbrev pub ◌>>=◌ {ℓ κ} : {A : Type ℓ} {B : Type κ} → Outcome A → (A → Outcome B) → Outcome B
done a >>= f = f a
thrown e >>= f = thrown e
out_of_fuel >>= f = out_of_fuel

abbrev pub call {ℓ} : {A : Type ℓ} → Result A → Outcome A
call (ok a) = done a
call (throw e) = thrown e

abbrev pub Parser {ℓ} : Type ℓ → Type ℓ
Parser A = Reader → Outcome (A × Reader)

-- `target = reader.op()` in a `case` of the switch.
abbrev pub assign {ℓ κ} :
    {A : Type ℓ} {B : Type κ} → (Reader → Result (A × Reader)) → (A → B) → Parser B
assign op set r = call (op r) >>= λ p. done (set p.0, p.1)

infixr 6 ◌then_write◌
abbrev pub ◌then_write◌ : Result Bytes → Result Bytes → Result Bytes
◌then_write◌ (throw e) more = throw e
◌then_write◌ (ok w) (throw e) = throw e
◌then_write◌ (ok w) (ok v) = ok (w ++ v)

-- `if (test) writer...`
abbrev pub write_if : Bool → Result Bytes → Result Bytes
write_if true w = w
write_if false w = ok []

-- The loop of a packed repeated field, `for (let e = reader.int32() + reader.pos; reader.pos < e;)`.
pub read_packed {ℓ} :
    {A : Type ℓ} → (Reader → Result (A × Reader)) → ℕ → ℕ → List A → Parser (List A)
read_packed op zero end items r = if ltb r.pos end then out_of_fuel else done (items, r)
read_packed op (suc fuel) end items r = elim (ltb r.pos end) [
  | true ↦ call (op r) >>= λ p. read_packed op fuel end (items ++ p.0 ∷ []) p.1
  | false ↦ done (items, r)
]

-- `for (let i = 0; i < items.length; i++)`
abbrev pub write_each {ℓ} : {A : Type ℓ} → (A → Result Bytes) → List A → Result Bytes
write_each write [] = ok []
write_each write (a ∷ items) = write a then_write write_each write items

-- A generated class: `create()`, the `case` of a field number in the switch of
-- `internalBinaryRead` (`none` is `default`), and the field writes of `internalBinaryWrite`.
pub record MessageType {ℓ} (M : Type ℓ) : Type ℓ where
  pub type_name : String
  pub create : M
  pub read_field : UnknownPolicy → ℕ → WireType → M → Option (Parser M)
  pub write_fields : Bool → M → Result Bytes

wire_type_number : WireType → ℕ
wire_type_number varint = 0
wire_type_number bit64 = 1
wire_type_number length_delimited = 2
wire_type_number start_group = 3
wire_type_number end_group = 4
wire_type_number bit32 = 5

unknown_field_error : String → ℕ → WireType → Thrown
unknown_field_error type_name field_no wire_type =
    Thrown.error "Error"
      (template (
        "Unknown field "
        ∷ decimal field_no
        ∷ " (wire type "
        ∷ decimal (wire_type_number wire_type)
        ∷ ") for "
        ∷ type_name
        ∷ []))
      none

module _ (runtime : Runtime) where
  -- The `default` case.
  pub read_unknown {ℓ} :
      {M : Type ℓ} → UnknownPolicy → String → ℕ → WireType → Message M → Parser (Message M)
  read_unknown refuse type_name field_no wire_type message r =
      thrown (unknown_field_error type_name field_no wire_type)
  read_unknown keep type_name field_no wire_type message r =
      assign (runtime.reader.skip wire_type)
        (λ content. record message {
          unknown =
              runtime.handler.on_read message.unknown
                (record { field_no = field_no; wire_type = wire_type; content = content });
        })
        r
  read_unknown discard type_name field_no wire_type message r =
      assign (runtime.reader.skip wire_type) (λ _. message) r

  pub read_case {ℓ} :
      {M : Type ℓ}
      → UnknownPolicy
      → String
      → ℕ
      → WireType
      → Message M
      → Option (Parser M)
      → Parser (Message M)
  read_case policy type_name field_no wire_type message none r =
      read_unknown policy type_name field_no wire_type message r
  read_case policy type_name field_no wire_type message (some field) r =
      field r >>= λ p. done (record message { body = p.0 }, p.1)

  module _ {ℓ} {M : Type ℓ} (type : MessageType M) (policy : UnknownPolicy) where
    -- One round of the loop: the tag, then the switch.
    pub read_round : Message M → Parser (Message M)
    read_round message r = call (runtime.reader.tag r) >>= λ p.
        read_case policy type.type_name p.0.0 p.0.1 message
          (type.read_field policy p.0.0 p.0.1 message.body) p.1

    -- `while (reader.pos < end)`
    pub read_loop : ℕ → ℕ → Message M → Parser (Message M)
    read_loop zero end message r = if ltb r.pos end then out_of_fuel else done (message, r)
    read_loop (suc fuel) end message r = elim (ltb r.pos end) [
      | true ↦ read_round message r >>= λ p. read_loop fuel end p.0 p.1
      | false ↦ done (message, r)
    ]

    -- `target ?? this.create()`
    abbrev pub target_or_create : Option (Message M) → Message M
    target_or_create none = plain type.create
    target_or_create (some message) = message

    -- `internalBinaryRead(reader, length, options, target)`: each round takes a byte at least.
    pub internal_binary_read : ℕ → Option (Message M) → Parser (Message M)
    internal_binary_read size target r = read_loop size (r.pos + size) (target_or_create target) r

  -- `internalBinaryWrite(message, writer, options)`, with `writeUnknownFields` on or off.
  unfoldable pub internal_binary_write {ℓ} :
      {M : Type ℓ} → MessageType M → Bool → Message M → Result Bytes
  internal_binary_write type unknown_too message =
      type.write_fields unknown_too message.body
      then_write write_if unknown_too (runtime.handler.on_write message.unknown)

  unfoldable pub join_written : Result Bytes → Result Bytes
  join_written (ok w) = runtime.writer.join w
  join_written (throw e) = throw e

  -- `Type.internalBinaryWrite(message.field, writer.tag(no, LengthDelimited).fork(), options).join()`
  unfoldable pub write_nested {ℓ} :
      {M : Type ℓ} → MessageType M → Bool → ℕ → Message M → Result Bytes
  write_nested type unknown_too field_no message =
      runtime.writer.tag field_no length_delimited
      then_write join_written (internal_binary_write type unknown_too message)

  -- `writer.tag(no, LengthDelimited).fork()`, each item, `writer.join()`: a packed field of `int64`.
  pub write_packed : ℕ → List String → Result Bytes
  write_packed field_no items =
      runtime.writer.tag field_no length_delimited
      then_write join_written (write_each runtime.writer.int64 items)

  -- `reader.int32() + reader.pos` is the end of the packed items; a negative length ends the loop at
  -- once.
  pub read_packed_int64 : List String → Parser (List String)
  read_packed_int64 items r = call (runtime.reader.int32 r) >>= λ p.
      read_packed runtime.reader.int64 (pos_part p.0) (pos_part p.0 + p.1.pos) items p.1

  -- `if (message.field)`
  unfoldable pub write_optional {ℓ} :
      {M : Type ℓ} → MessageType M → Bool → ℕ → Option (Message M) → Result Bytes
  write_optional type unknown_too field_no none = ok []
  write_optional type unknown_too field_no (some message) =
      write_nested type unknown_too field_no message

  -- `Type.internalBinaryRead(reader, reader.uint32(), options, target)`
  pub read_nested {ℓ} :
      {M : Type ℓ} → MessageType M → UnknownPolicy → Option (Message M) → Parser (Message M)
  read_nested type policy target r =
      call (runtime.reader.uint32 r) >>= λ p. internal_binary_read type policy p.0 target p.1

-- `target = <parser>` and `target.push(<parser>)` with a parser of this module.
abbrev pub assign_parsed {ℓ κ} : {A : Type ℓ} {B : Type κ} → Parser A → (A → B) → Parser B
assign_parsed parser set r = parser r >>= λ p. done (set p.0, p.1)
