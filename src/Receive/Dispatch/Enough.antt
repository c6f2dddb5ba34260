-- ===== src/Receive/Dispatch/Enough.antt =====
-- How often the handling of an incoming payload calls itself.
use imessage_for_me.Base.{ℕ, not, [], none, some, Bytes, ◌==◌, if◌then◌else◌}
use imessage_for_me.Apns.Payload.{returned}
use imessage_for_me.Receive.{SendMessagePayload, User}
use imessage_for_me.Receive.Wire.{Libraries}
use imessage_for_me.Receive.Dispatch.{
  Cryptography, imessage_async, Handled, unwrapped, async_body, handle_command,
}

-- The calls that a payload can need, by its command and that of its content.
abbrev depth : ℕ → ℕ → ℕ
depth command original =
    if command == imessage_async then (if original == imessage_async then 3 else 2) else 1

module _ {B C : Type 0} (env : Libraries) (pair : Cryptography B) (pair_ec : Cryptography C) where
  -- What `with_body` does with the unpacked body.
  abbrev opened : (SendMessagePayload → Handled) → User → SendMessagePayload → Bytes → Handled
  opened again user p body =
      if not (env.is_map body)
      then returned (some user, [])
      else if p.command == imessage_async
      then elim (async_body env pair pair_ec body) as (λ x. Handled) [
        | none ↦ returned (some user, [])
        | some content ↦ again (unwrapped p content)
      ]
      else handle_command env pair pair_ec user p body
