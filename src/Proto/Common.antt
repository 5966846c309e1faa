-- ===== src/Proto/Common.antt =====
-- The messages of common.proto.
-- Code: sdk/typescript/src/gen/pgapp/v1/common.ts
pub mod RoundTrip
use text.Mathlib.Text.{◌==◌ as str_eq}
use pgapp.Common.{if◌then◌else◌, ◌==◌, String, Bool, false, not, none, some, [], ℤ, pos, is_zero}
use pgapp.Common.Result.{ok}
use pgapp.Wire.{Runtime, MessageType, assign, write_if, ◌then_write◌, varint, length_delimited}

-- An interface with no field.
pub data Empty : Type 0 where
  empty : Empty

unfoldable pub empty_type : Runtime → MessageType Empty
empty_type runtime = record {
  type_name = "pgapp.v1.Empty";
  create = empty;
  read_field = λ _ _ _ _. none;
  write_fields = λ _ _. ok [];
}

pub record OperationResult : Type 0 where
  pub success : Bool

unfoldable pub operation_result_type : Runtime → MessageType OperationResult
operation_result_type runtime = record {
  type_name = "pgapp.v1.OperationResult";
  create = record { success = false };
  read_field = λ _ field_no _ message.
      if field_no == 1
      then some (assign runtime.reader.bool (λ v. record message { success = v }))
      else none;
  write_fields = λ _ message.
      write_if message.success
        (runtime.writer.tag 1 varint then_write runtime.writer.bool message.success);
}

pub record ServiceCapability : Type 0 where
  pub name : String
  pub state : ℤ
  pub message : String

unfoldable pub service_capability_type : Runtime → MessageType ServiceCapability
service_capability_type runtime = record {
  type_name = "pgapp.v1.ServiceCapability";
  create = record { name = ""; state = pos 0; message = "" };
  read_field = λ _ field_no _ message.
      if field_no == 1
      then some (assign runtime.reader.string (λ v. record message { name = v }))
      else if field_no == 2
      then some (assign runtime.reader.int32 (λ v. record message { state = v }))
      else if field_no == 3
      then some (assign runtime.reader.string (λ v. record message { message = v }))
      else none;
  write_fields = λ _ message.
      write_if (not (str_eq message.name ""))
        (runtime.writer.tag 1 length_delimited then_write runtime.writer.string message.name)
      then_write write_if (not (is_zero message.state))
          (runtime.writer.tag 2 varint then_write runtime.writer.int32 message.state)
      then_write write_if (not (str_eq message.message ""))
          (runtime.writer.tag 3 length_delimited then_write runtime.writer.string message.message);
}
