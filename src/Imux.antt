-- ===== src/Imux.antt =====
-- imessage/ipc/imux/imux.go: the keepalives to the server that holds the push connection while the
-- program does not run. The HTTP requests are an argument, over a state of the network. Rates are
-- nanoseconds.
pub mod Rates
use imessage_for_me.Base.{
  ℕ, ◌*◌, ◌%◌, ◌^◌, Bool, true, false, not, ◌&&◌, List, [], ◌∷◌, Option, none, some, ltb, ◌==◌,
  if◌then◌else◌,
}
use imessage_for_me.Base.Int.{ℤ, pos, negsuc, signed}

abbrev pub second : ℕ
second = 1000 * 1000 * 1000

abbrev pub imux_min_keepalive : ℕ
imux_min_keepalive = second

pub data Endpoint : Type 0 where
  put_device post_keepalive post_yield : Endpoint

-- The body of a response: there is none, it does not decode, or it has a rate in milliseconds, an
-- `int64` that is given by its 64 bits.
pub data RateBody : Type 0 where
  no_body bad_body : RateBody
  rate_ms : ℕ → RateBody

-- How `request` ends: cancelled, with another error, or with a status and a body.
pub data HttpResult : Type 0 where
  cancelled failed : HttpResult
  http_response : ℕ → RateBody → HttpResult

pub data ImuxError : Type 0 where
  context_canceled request_failed undecodable : ImuxError
  unauthorized unknown_device conflict : ImuxError
  unexpected_status : ℕ → ImuxError

pub data Rate : Type 0 where
  rate_of : ℤ → Rate
  imux_error : ImuxError → Rate

-- `JSONDurationMs` and `decodeKeepaliveRate`.
unfoldable pub decode_keepalive_rate : RateBody → Rate
decode_keepalive_rate no_body = rate_of (pos 0)
decode_keepalive_rate bad_body = imux_error undecodable
decode_keepalive_rate (rate_ms r) = rate_of (signed ((r * (1000 * 1000)) % 2 ^ 64))

-- What `register` makes of the response.
unfoldable pub register_rate : HttpResult → Rate
register_rate cancelled = imux_error context_canceled
register_rate failed = imux_error request_failed
register_rate (http_response status body) =
    if status == 201
    then decode_keepalive_rate body
    else if status == 409
    then imux_error conflict
    else if status == 401
    then imux_error unauthorized
    else imux_error (unexpected_status status)

-- What `keepalive` makes of the response.
unfoldable pub keepalive_rate : HttpResult → Rate
keepalive_rate cancelled = imux_error context_canceled
keepalive_rate failed = imux_error request_failed
keepalive_rate (http_response status body) =
    if status == 200
    then decode_keepalive_rate body
    else if status == 204
    then rate_of (pos 0)
    else if status == 401
    then imux_error unauthorized
    else if status == 404
    then imux_error unknown_device
    else imux_error (unexpected_status status)

-- What `yield` makes of the response.
unfoldable pub yield_error : HttpResult → Option ImuxError
yield_error cancelled = some context_canceled
yield_error failed = some request_failed
yield_error (http_response status body) =
    if status == 204
    then none
    else if status == 401
    then some unauthorized
    else if status == 404
    then some unknown_device
    else some (unexpected_status status)

-- `IMux`: whether there is a URL and a `cancel`, and the rate of the ticker while the loop runs.
pub record Imux : Type 0 where
  pub has_url : Bool
  pub has_cancel : Bool
  pub loop_rate : Option ℕ

-- The rate that `Start` sets the ticker to, nothing where it starts no loop.
unfoldable pub start_rate : Rate → Option ℕ
start_rate (imux_error e) = some (30 * second)
start_rate (rate_of (negsuc r)) = some imux_min_keepalive
start_rate (rate_of (pos r)) =
    if r == 0 then none else if ltb r imux_min_keepalive then some imux_min_keepalive else some r

abbrev pub with_loop : Option ℕ → Imux → Imux
with_loop none s = s
with_loop (some r) s = record s { has_cancel = true; loop_rate = some r }

-- The rate behind one round of the loop, nothing where the loop ends.
unfoldable pub next_rate : ℕ → Rate → Option ℕ
next_rate old (imux_error context_canceled) = none
next_rate old (imux_error e) = some old
next_rate old (rate_of (negsuc new)) = some old
next_rate old (rate_of (pos new)) =
    if new == 0
    then none
    else if ltb imux_min_keepalive new && not (new == old)
    then some new
    else some old

-- `Close`.
unfoldable pub close : Imux → Imux
close s = if not s.has_cancel then s else record s { has_cancel = false; loop_rate = none }

pub data ImuxCall : Type 0 where
  starts ticks stops closes : ImuxCall

module _ {W : Type 0} (request : Endpoint → W → HttpResult × W) where
  abbrev pub or_register : Rate × W → Rate × W
  or_register (imux_error unknown_device, w) =
      let (r, w') = request put_device w in (register_rate r, w')
  or_register s = s

  -- `keepaliveOrRegister`.
  unfoldable pub keepalive_or_register : W → Rate × W
  keepalive_or_register w =
      let (r, w') = request post_keepalive w in or_register (keepalive_rate r, w')

  -- `Start`.
  unfoldable pub start : Imux × W → Imux × W
  start (s, w) =
      let (r, w') = keepalive_or_register w in
      if s.has_cancel
      then (s, w)
      else if not s.has_url
      then (s, w)
      else (with_loop (start_rate r) s, w')

  abbrev pub ticked : Option ℕ → Imux × W → Imux × W
  ticked none (s, w) = (s, w)
  ticked (some old) (s, w) =
      let (r, w') = keepalive_or_register w in (record s { loop_rate = next_rate old r }, w')

  -- One round of the loop, where it runs.
  unfoldable pub tick : Imux × W → Imux × W
  tick (s, w) = ticked s.loop_rate (s, w)

  -- `Stop`.
  unfoldable pub stop : Imux × W → Imux × W
  stop (s, w) =
      let (r, w') = request post_yield w in if not s.has_cancel then (s, w) else (close s, w')

  unfoldable pub call : ImuxCall → Imux × W → Imux × W
  call starts s = start s
  call ticks s = tick s
  call stops s = stop s
  call closes (s, w) = (close s, w)

  unfoldable pub calls : List ImuxCall → Imux × W → Imux × W
  calls [] s = s
  calls (c ∷ cs) s = calls cs (call c s)
