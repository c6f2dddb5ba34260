-- ===== src/Ipc/Answers.antt =====
-- Each request that is read is answered once, and under its own ID.
use imessage_for_me.Base.{
  ℕ, suc, ◌+◌, ◌≡◌, refl, Bool, true, false, not, ◌&&◌, ◌||◌, List, [], ◌∷◌, ◌++◌, Bytes, equal,
  ◌==◌, if◌then◌else◌, arith, is_some, ap, sym, ◌∙◌,
}
use imessage_for_me.Ipc.{
  command_response, command_error, Message, OutgoingMessage, Response, own_error,
  err_unknown_command, Processor, respond, send, request_async, read, finish, Runs, starts, sends,
  requests, reads, finishes, new_processor,
}

-- The messages with the ID that are no responses.
unfoldable pub asked : ℕ → List Message → ℕ
asked i [] = 0
asked i (m ∷ ms) =
    let rest = asked i ms in
    if m.id == i && not (equal m.command command_response || equal m.command command_error)
    then suc rest
    else rest

unfoldable pub being_handled : ℕ → List Message → ℕ
being_handled i [] = 0
being_handled i (m ∷ ms) = let rest = being_handled i ms in if m.id == i then suc rest else rest

unfoldable pub answered : ℕ → List OutgoingMessage → ℕ
answered i [] = 0
answered i (o ∷ os) =
    let rest = answered i os in if o.id == i && is_some o.response_to then suc rest else rest

-- The responses to the ID that could not be encoded, by the log.
unfoldable pub lost : ℕ → List ℕ → ℕ
lost i [] = 0
lost i (j ∷ js) = let rest = lost i js in if j == i then suc rest else rest

-- What the requests with an ID amount to.
abbrev total : ℕ → Processor → ℕ
total i p = answered i p.out + lost i p.logged + being_handled i p.running

total-respond :
    (i id : ℕ) (written : Bool) (command : Bytes) (r : Response) (p : Processor)
    → (i == 0) ≡ false
    → total i (respond written id command r p) ≡ (if id == i then suc (total i p) else total i p)
unfolding answered lost respond
total-respond i id written command r p h = ground (arith, h)

being_handled-append :
    (i : ℕ) (before rest : List Message) (m : Message)
    → being_handled i (before ++ m ∷ rest) ≡ (
        if m.id == i
        then suc (being_handled i (before ++ rest))
        else being_handled i (before ++ rest))
unfolding being_handled
being_handled-append i [] rest m = refl
being_handled-append i (b ∷ before) rest m = ground (arith, being_handled-append i before rest m)

total-read :
    (i : ℕ) (written : Bool) (m : Message) (p : Processor)
    → (i == 0) ≡ false
    → total i (read written m p) ≡ (
        if m.id == i && not (equal m.command command_response || equal m.command command_error)
        then suc (total i p)
        else total i p)
unfolding read being_handled
total-read i written m p h =
    ground (arith, total-respond i m.id written m.command (own_error err_unknown_command) p h)

total-finish :
    (i : ℕ) (written : Bool) (before rest : List Message) (m : Message) (r : Response)
    (p : Processor)
    → p.running ≡ before ++ m ∷ rest
    → (i == 0) ≡ false
    → total i (finish written before m rest r p) ≡ total i p
unfolding finish
total-finish i written before rest m r p e h = ground (
  arith,
  total-respond i m.id written m.command r (record p { running = before ++ rest }) h,
  ap (being_handled i) e ∙ being_handled-append i before rest m,
)

-- At any time, for any ID but 0, the requests read are one for one those answered, those whose
-- response could not be encoded and was logged and dropped, and those being handled.
pub asked-Runs :
    (handlers : List Bytes) (log : List Message) (p : Processor) (i : ℕ)
    → Runs (new_processor handlers) log p
    → (i == 0) ≡ false
    → asked i log ≡ answered i p.out + lost i p.logged + being_handled i p.running
unfolding asked new_processor answered lost being_handled send request_async
asked-Runs handlers _ _ i starts h = refl
asked-Runs handlers log _ i (sends true command d r) h =
    ground (arith, asked-Runs handlers log _ i r h)
asked-Runs handlers log _ i (sends false command d r) h = asked-Runs handlers log _ i r h
asked-Runs handlers log _ i (requests true command d r) h =
    ground (arith, asked-Runs handlers log _ i r h)
asked-Runs handlers log _ i (requests false command d r) h = asked-Runs handlers log _ i r h
asked-Runs handlers _ _ i (reads {log = log} {p = p} written m r) h =
    ground (arith, asked-Runs handlers log p i r h, total-read i written m p h)
asked-Runs handlers log _ i (finishes {p = p} written before m rest response e r) h =
    asked-Runs handlers log p i r h ∙ sym (total-finish i written before rest m response p e h)
