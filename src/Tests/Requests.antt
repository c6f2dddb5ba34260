-- ===== src/Tests/Requests.antt =====
-- The relay's providers, and retried requests.
use imessage_for_me.Base.{
  ℕ, zero, suc, ◌≤◌, ◌≡◌, refl, false, List, [], ◌∷◌, none, some, codes, is_nil, arith,
}
use imessage_for_me.Relay.Code.{generate_provider_code}
use imessage_for_me.Relay.Provider.{
  Secrets, Registry, get_provider, register_provider, unregister_provider, Message, register, ping,
  malformed, websocket_messages,
}
use imessage_for_me.Relay.Provider.Takeover.{IsCodec, issued, takeover}
use imessage_for_me.Retry.{
  Attempt, status, send_error, Rewind, rewound, response, do_custom_output, SendResult, sent,
  unexpected_ack, other_error, do_loop, settled,
}
use imessage_for_me.Retry.Bounds.{do_custom_output_bounds}

-- A codec that writes bytes as they are, and a hash of one byte.
abbrev as_is : Secrets
as_is = record {
  calculate_secret = λ code. 42 ∷ [];
  encode = λ bytes. bytes;
  decode = λ text. some text;
}

as_is-IsCodec : IsCodec as_is
as_is-IsCodec = record { decode-encode = λ bytes. refl; short = λ code. omega arith }

abbrev numbers : List ℕ
numbers = 0 ∷ 1 ∷ 2 ∷ 3 ∷ 4 ∷ 5 ∷ 6 ∷ 7 ∷ 8 ∷ 9 ∷ 10 ∷ 11 ∷ 12 ∷ 13 ∷ 14 ∷ 31 ∷ []

abbrev no_providers : Registry
no_providers = record { providers = []; kicked = [] }

takeover_example :
    (r1 : Registry) × (r2 : Registry) × (register_provider as_is
        (some (generate_provider_code numbers))
        (record { code = []; secret = [] })
        1
        no_providers
      ≡ some (issued as_is (generate_provider_code numbers), r1))
    × (get_provider r1 (generate_provider_code numbers) ≡ some 1)
    × (register_provider as_is none (issued as_is (generate_provider_code numbers)) 2 r1
        ≡ some (issued as_is (generate_provider_code numbers), r2))
    × (r2.kicked ≡ 1 ∷ [])
    × (get_provider
          (unregister_provider r2 (generate_provider_code numbers) 1)
          (generate_provider_code numbers)
        ≡ some 2)
takeover_example =
    takeover as_is numbers no_providers 1 2 as_is-IsCodec refl (λ same. absurd (omega arith))

-- A provider that registers without a code, is pinged, and sends what cannot be read.
abbrev messages : List Message
messages =
    register (record { code = []; secret = [] }) (some (codes "2345-6789-ABCD-EFGH"))
    ∷ ping
    ∷ malformed
    ∷ []

named :
    is_nil
      (websocket_messages as_is 1
        (record { registry = no_providers; registered = false; code = [] })
        messages).code
    ≡ false
unfolding websocket_messages register_provider
named = refl

-- The first attempt cannot be sent, and all others are answered with 200.
abbrev second_works : ℕ → Attempt
second_works zero = send_error
second_works _ = status 200

abbrev always_rewound : ℕ → Rewind
always_rewound n = rewound

do_custom_output_bounds_example :
    (1 ≤ (do_custom_output 50 second_works always_rewound).1)
    × ((do_custom_output 50 second_works always_rewound).1 ≤ 51)
do_custom_output_bounds_example = do_custom_output_bounds 50 second_works always_rewound

answered : (do_custom_output 50 second_works always_rewound).0 ≡ response 200
unfolding do_custom_output do_loop settled
answered = refl

-- Twice sent too early, and then sent.
abbrev third_works : ℕ → SendResult
third_works zero = unexpected_ack (0x80 ∷ [])
third_works (suc zero) = other_error
third_works _ = sent
