-- ===== src/Lib.antt =====
-- The logic of the iMessage bridge and of its registration relay.
--
-- The bridge speaks to Apple's push service over one connection. Commands are marshalled to binary
-- payloads; the reading goroutine of the connection unmarshals what arrives. A message goes to many
-- devices: its destinations are put in a waiter, which counts acknowledgements by push token and by
-- user, and they are cut into commands that fit the limit of the service. Receipts that come later
-- are collected by message and reported together. Users, groups and the account's own handles are
-- URIs. Which devices a user has is looked up at the identity service, through a cache in memory or
-- in the database; a message is sent to the devices that were found, with a second attempt where the
-- service or a signature asks for one. A message that arrives is decrypted and decoded, and the handler
-- of its command makes events of it: messages with their parts and balloons, edits, changes of groups,
-- receipts, text messages of a phone. The program that embeds the bridge speaks to it by commands,
-- and a multiplexer holds the push connection while it sleeps. The relay keeps which provider of
-- validation data stands for which code.
--
-- Which file is about which code:
--   Apns/Payload, Apns/Word   imessage/imessage/direct/apns/binary.go: `ToBytes`, `UnmarshalBinary`,
--                             `UnmarshalBinaryStream`
--   Apns/Reader               imessage/imessage/direct/apns/connection.go: the goroutine of `Run` that
--                             reads the socket
--   Apns/Command, Apns/Marshal
--                             imessage/imessage/direct/apns/commands.go and marshal.go: the command
--                             structs, `toStruct`, `structToPayload`, `Marshal`
--   Apns/Connection           apns/response.go and connection.go: `receiveResponse`, `handlePayload`
--   Waiting                   apns/response.go and ipc/ipc.go: the maps of requests that wait
--   Ack                       imessage/imessage/direct/ackwaiter.go: `Receive`, `Cancel`, `Close`, and
--                             the loop of `sendEncryptedMessage` in connector.go that fills a waiter
--   Ack/Waiters               ackwaiter.go: `handleAck`, `newAckWaiter`, `finishAckWaiting`
--   Ack/Report                ackwaiter.go: `newSendMessageError`, `hasError`; Ack/Report/Texts: `Error`
--   Split                     imessage/imessage/direct/connector.go: `splitDTL`
--   Delivery                  imessage/imessage/direct/deliverycollector.go, and `ByteUUID.UUID` of
--                             util/plistuuid/uuid.go
--   Uri, Uri/Identifier, Uri/Order
--                             imessage/imessage/direct/util/uri/uri.go
--   Ids/Handles               imessage/imessage/direct/ids/user.go: `UpdateHandlesIfChanged`
--   Ids/Cache                 imessage/imessage/direct/ids/lookup.go: `InMemoryLookupCache`; and
--                             imessage/database/idscache.go
--   Ids/Lookup                lookup.go: `LookupServer`; Ids/Lookup/Cached: `Lookup`, `LookupDevice`
--   Connector/Destinations, Connector/Resolve, Connector/Reroute, Connector/Send,
--   Connector/Schedule
--                             imessage/imessage/direct/connector.go: `fixSendFromHandle`,
--                             `constructDTL`, `ResolveIdentifiers`,
--                             `RerouteAndReregister`, `sendEncryptedMessage`, `timeUntilReregisterCheck`,
--                             `RegisterIDS`, `checkExistingRegistrationCerts`
--   Receive/Dispatch          connector.go: `handleAPNSMessage`, `handleRead`, `handleTyping`; and
--                             imessage/imessage/direct/decrypt.go: `handleEncryptedAPNSMessage`
--   Receive/Imessage, Receive/Group, Receive/Sms
--                             decrypt.go: the handlers of the commands
--   Receive/Parts, Receive/Participants, Receive/Text
--                             decrypt.go: attachments and the parts of a text, whom a message is from
--                             and which chat it is in, and what is done to texts
--   Receive, Receive/Wire     imessage/imessage/direct/imessage.go and imessage/struct.go: the
--                             structures, and the libraries that decode them
--   Archive                   imessage/imessage/direct/util/nskeyedarchive/parse.go
--   Balloon                   imessage/imessage/direct/balloonparse.go and util/gnuzip/gunzip.go
--   Edits                     imessage/imessage/direct/editparse.go
--   Ipc                       imessage/ipc/ipc.go: `Processor`
--   Imux                      imessage/imessage/ipc/imux/imux.go
--   Retry                     `DoCustomOutput` of imessage/imessage/direct/util/httputil/retry.go and
--                             `SendMessage` of apns/connection.go
--   Relay/Code, Relay/Provider
--                             registration-relay/internal/util/codes.go and provider/provider.go
--   Tapback                   imessage/imessage/tapback.go
--   Chat                      imessage/imessage/struct.go: identifiers and the names of contacts
--   Base                      what the other files share; Tests: the theorems at concrete inputs
--
-- A byte, a number and a code point are natural numbers, a string or a slice of bytes is the list
-- of its bytes, and a map is an association list. An operation on a struct takes it and gives it
-- back. What holds a lock is one step. Times are nanoseconds; where a number is an `int`, it is the
-- number of its bits, which `signed` of Base/Int reads with its sign. Errors are values of the data
-- types of each module; a fault of the runtime (a slice out of range, a counter below 0) is
-- `panicked` in Apns, and `none` in Ack and Apns/Connection. In Receive, Archive and Balloon a
-- pointer that is nil, a type assertion that fails and an index out of range are `panicked`, and
-- what a handler brings about is the list of its effects.
--
-- The state of the network, and what a handler or a server answers, are arguments of the definitions
-- that use them. Where goroutines run side by side, the theorem is about any order of their steps.
--
-- Loops over slices are recursion on the list. Seven routines are on fuel, and give `out_of_fuel`
-- where it is too little: `fields_loop` takes three bytes of its slice in a round and gets one
-- round more than bytes; `read_loop` takes a byte of the stream in a round; `split_loop` takes one
-- off the chunk size, at most 20, or adds one to the chunk number, and gets 21 rounds more than
-- destinations; `lookup_server` halves its list at each split, and gets one round more than URIs;
-- `send_encrypted_message` clears a flag in each call of itself, and gets one round more than
-- flags; `handle_encrypted_apns_message` calls itself for the content of an asynchronous message
-- and gets three calls, as the command of the wrapper is used up by then and more change nothing;
-- `parse` of an archive gets as many calls as `archive_calls` says, which is an argument, since an
-- archive whose references go round has no bound.
--
-- Of the two caches, the one in memory is taken to hold objects of its own, which nobody else
-- writes to; the database keeps JSON, which is an argument, and has two dialects, which invalidate
-- differently.
--
-- Not modelled: logging, waiting times and deadlines; cryptography, hashes, property lists, XML, HTML,
-- compression, downloads and phone numbers, which libraries and the network do and which stand here as
-- parameters; the building of outgoing messages in connector.go; the bridge to Matrix and its database, but
-- for the cache of lookups; the requests to Apple's servers; the Swift program under barcelona, and
-- imessage-client, which repeats the code for the push service.
pub mod Base
pub mod Ack
pub mod Apns
pub mod Archive
pub mod Balloon
pub mod Chat
pub mod Connector
pub mod Delivery
pub mod Edits
pub mod Ids
pub mod Imux
pub mod Ipc
pub mod Receive
pub mod Relay
pub mod Retry
pub mod Split
pub mod Tapback
pub mod Tests
pub mod Uri
pub mod Waiting
