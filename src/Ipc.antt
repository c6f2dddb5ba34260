-- ===== src/Ipc.antt =====
-- ipc/ipc.go: the processor of commands between two programs. Handlers run in goroutines, so the
-- processor is a relation between states, a step for each command that is read, for each handler
-- that returns or panics, and for each request of its own. An ID is a number below 2^64, which
-- stands for the `int` of the same bits; what a handler returns, and whether a message can be encoded
-- and written, is free.
pub mod Answers
use imessage_for_me.Base.{
  ℕ, ◌+◌, ◌-◌, ◌%◌, ◌^◌, ◌≡◌, not, ltb, Bool, true, false, ◌||◌, List, [], ◌∷◌, ◌++◌, Option, none,
  some, Bytes, codes, equal, ◌==◌, if◌then◌else◌,
}
use imessage_for_me.Base.Assoc.{number_key}
use imessage_for_me.Waiting.{Waiting, no_waiters, wait, receive}

abbrev pub command_response : Bytes
command_response = codes "response"

abbrev pub command_error : Bytes
command_error = codes "error"

-- `Message`.
pub record Message : Type 0 where
  pub command : Bytes
  pub id : ℕ
  pub data_of : Bytes

-- `Error`.
pub record IpcError : Type 0 where
  pub code : Bytes
  pub message : Bytes

abbrev pub err_unknown_command : IpcError
err_unknown_command = record { code = codes "unknown-command"; message = codes "Unknown command" }

-- What a handler returns: a value, an `Error`, another error with its text, or a panic.
pub data Response : Type 0 where
  value : Bytes → Response
  own_error : IpcError → Response
  other_error panicked : Bytes → Response

pub data Body : Type 0 where
  data_body : Bytes → Body
  error_body : IpcError → Body

-- `OutgoingMessage`; a `response_to` of none is the empty one.
pub record OutgoingMessage : Type 0 where
  pub command : Bytes
  pub response_to : Option Bytes
  pub id : ℕ
  pub body : Body

-- `Processor`: the commands with a handler, the waiters, the counter of requests, the messages in
-- the goroutines of handlers, what was written, and the IDs of the log lines "Failed to encode IPC
-- response", the newest first.
pub record Processor : Type 0 where
  pub handlers : List Bytes
  pub waiters : Waiting ℕ Message
  pub req_id : ℕ
  pub running : List Message
  pub out : List OutgoingMessage
  pub logged : List ℕ

unfoldable pub new_processor : List Bytes → Processor
new_processor handlers = record {
  handlers = handlers;
  waiters = no_waiters;
  req_id = 0;
  running = [];
  out = [];
  logged = [];
}

unfoldable pub has_handler : Bytes → List Bytes → Bool
has_handler c [] = false
has_handler c (h ∷ hs) = equal h c || has_handler c hs

-- The command and the body of a response.
unfoldable pub response_parts : Response → Bytes × Body
response_parts (value v) = (command_response, data_body v)
response_parts (own_error e) = (command_error, error_body e)
response_parts (other_error text) =
    (command_error, error_body (record { code = codes "error"; message = text }))
response_parts (panicked text) =
    (command_error, error_body (record { code = codes "panic"; message = text }))

-- `respond`, where the response is written or not.
unfoldable pub respond : Bool → ℕ → Bytes → Response → Processor → Processor
respond written id command response p =
    let (c, b) = response_parts response in
    if id == 0
    then p
    else if written
    then record p {
      out = record { command = c; response_to = some command; id = id; body = b } ∷ p.out;
    }
    else record p { logged = id ∷ p.logged }

abbrev pub write : Bool → OutgoingMessage → Processor → Processor
write written m p = if written then record p { out = m ∷ p.out } else p

-- `Send`, which returns the error of the encoder.
unfoldable pub send : Bool → Bytes → Bytes → Processor → Processor × Bool
send written command d p = (
  write written (record { command = command; response_to = none; id = 0; body = data_body d }) p,
  not written,
)

-- The `int` of an `int32`, both by their bits.
abbrev pub extended : ℕ → ℕ
extended n = if ltb n (2 ^ 31) then n else n + (2 ^ 64 - 2 ^ 32)

-- `RequestAsync`, with whether it panics, as it does where the encoder fails; `req_id` is an `int32`.
unfoldable pub request_async : Bool → Bytes → Bytes → Processor → Processor × Bool
request_async written command d p =
    let n = (p.req_id + 1) % 2 ^ 32 in
    (
      write written
          (record { command = command; response_to = none; id = extended n; body = data_body d })
          (record p { req_id = n; waiters = wait (extended n) p.waiters }),
      not written,
    )

-- One round of `Loop`; the flag is for the response to an unknown command.
unfoldable pub read : Bool → Message → Processor → Processor
read written m p =
    if equal m.command command_response || equal m.command command_error
    then record p { waiters = (receive m.id m p.waiters).1 }
    else if has_handler m.command p.handlers
    then record p { running = m ∷ p.running }
    else respond written m.id m.command (own_error err_unknown_command) p

-- The end of `callHandler` of one of the messages that are being handled.
unfoldable pub finish :
    Bool → List Message → Message → List Message → Response → Processor → Processor
finish written before m rest response p =
    respond written m.id m.command response (record p { running = before ++ rest })

-- The messages read so far stand in the index, the newest first.
pub data Runs (start : Processor) : List Message → Processor → Type 0 where
  starts : Runs start [] start
  sends :
      {log : List Message} {p : Processor} (written : Bool) (command d : Bytes)
      → Runs start log p
      → Runs start log (send written command d p).0
  requests :
      {log : List Message} {p : Processor} (written : Bool) (command d : Bytes)
      → Runs start log p
      → Runs start log (request_async written command d p).0
  reads :
      {log : List Message} {p : Processor} (written : Bool) (m : Message)
      → Runs start log p
      → Runs start (m ∷ log) (read written m p)
  finishes :
      {log : List Message} {p : Processor} (written : Bool) (before : List Message) (m : Message)
      (rest : List Message) (response : Response)
      → p.running ≡ before ++ m ∷ rest
      → Runs start log p
      → Runs start log (finish written before m rest response p)
