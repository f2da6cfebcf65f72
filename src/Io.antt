-- ===== src/Io.antt =====
-- lib.io, lib.varint and lib.error, which the program calls and does not contain.
--
-- `error err` is a value of `Result`: `if (err) return;` after a call is the bind of a `do` block.
-- A sink is the list of the bytes that it has taken, and a source the list of the bytes still to come.
pub mod Laws
pub mod Bind
pub mod Leb128
use serialrpc.Base.{ℕ, List, ℤ, Bool, true, false}

-- What is reported to an `error`. The two panics stop the program.
pub data Error : Type 0 where
  -- from lib.io or lib.varint
  io_error : Error
  excessive_nesting invalid_tag short_read chunked_too_big data_too_big : Error
  invalid_bool : ℕ → Error
  panic_out_of_space panic_empty_stack : Error
  -- from the client
  not_running connection_closed client_failed unexpected_reply unknown_method : Error
  request_too_big bad_message fatal_error unsolicited_goodbye unexpected_hello : Error
  log_too_big missing_service : Error
  unexpected_byte unexpected_start unknown_event protocol_mismatch : ℕ → Error
  major_mismatch minor_too_low : List ℕ → Error
  error_reply : List ℕ → Error
  -- from the command line
  bad_method_name no_such_method unsupported_discovery type_id_zero unknown_method_type : Error
  schema_not_loaded streaming_method unwanted_request bad_request_text bad_response no_prototype :
      Error
  duplicate_type_id not_message_or_enum unknown_message_type unknown_enum_type : ℕ → Error
  invalid_field_type : ℤ → Error
  -- a null pointer is read, or a map has no such key
  panic_null panic_already_initialized panic_out_of_range : Error
  -- no value of the program: a loop of the model ran out of fuel
  out_of_fuel : Error

pub data Result {ℓ} (A : Type ℓ) : Type ℓ where
  ok : A → Result A
  err : Error → Result A

-- The rest of a block runs only behind a call without an error: `if (err) return;`.
infixl 5 ◌>>=◌
abbrev pub ◌>>=◌ {ℓ κ} : {A : Type ℓ} {B : Type κ} → Result A → (A → Result B) → Result B
err e >>= rest = err e
ok value >>= rest = rest value

abbrev pub Bytes : Type 0
Bytes = List ℕ

abbrev pub Sink : Type 0
Sink = List ℕ

abbrev pub Source : Type 0
Source = List ℕ

-- The operations that the program calls.
pub record Io : Type 0 where
  pub write : Bytes → Sink → Result Sink
  pub write_byte : ℕ → Sink → Result Sink
  pub flush : Sink → Result Sink
  pub write_uint32 : ℕ → Sink → Result Sink
  pub write_uint64 : ℕ → Sink → Result Sink
  pub write_size : ℕ → Sink → Result Sink
  pub write_sint32 : ℤ → Sink → Result Sink
  pub write_sint64 : ℤ → Sink → Result Sink
  pub read_byte : Source → Result (ℕ × Source)
  pub read_full : ℕ → Source → Result (Bytes × Source)
  -- What a `read_full` that failed leaves in the buffer.
  pub unfilled : ℕ → Source → Bytes
  pub skip : ℕ → Source → Result (Bytes × Source)
  pub discard : ℕ → Source → Result Source
  pub read_uint32 : Source → Result (ℕ × Source)
  pub read_uint64 : Source → Result (ℕ × Source)
  pub read_size : Source → Result (ℕ × Source)
  pub read_sint32 : Source → Result (ℤ × Source)
  pub read_sint64 : Source → Result (ℤ × Source)
  pub skip_varint : Source → Result Source
