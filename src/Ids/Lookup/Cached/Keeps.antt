-- ===== src/Ids/Lookup/Cached/Keeps.antt =====
-- What the network keeps through each exchange of 20 URIs at most, a lookup keeps.
use imessage_for_me.Base.{suc, ◌≤◌, Bool, false, List, [], ◌∷◌, Bytes, length, arith}
use imessage_for_me.Uri.{ParsedUri}
use imessage_for_me.Ids.Lookup.{
  Results, Network, LookupUser, Outcome, answer, failure, lookup_server,
}
use imessage_for_me.Ids.Lookup.Coverage.{lookup_server-Inv}
use imessage_for_me.Ids.Lookup.Cached.{lookup, ask_remaining, absorbed}

-- A lookup without a limiter, through a network that keeps an invariant.
module _ {W : Type 0} (net : Network W) (Inv : W → Type 0)
    (exchanges : (cert : Bytes) (own : ParsedUri) (us : List ParsedUri) (x : W)
      → length us ≤ 20
      → Inv x
      → Inv (net.exchange cert own us x).1)
    (registers : (x : W) → Inv x → Inv (net.register x).1) where
  absorbed-Inv :
      (own : ParsedUri) (kept : Results) (o : Outcome W)
      → Inv o.1.1
      → Inv (absorbed net own kept o).1.1
  absorbed-Inv own kept (answer rs, (u, w)) i = i
  absorbed-Inv own kept (failure e, s) i = i

  ask_remaining-Inv :
      (own : ParsedUri) (kept : Results) (us : List ParsedUri) (u : LookupUser) (w : W)
      → Inv w
      → Inv (ask_remaining net own kept us (u, w)).1.1
  unfolding ask_remaining
  ask_remaining-Inv own kept [] u w i = i
  ask_remaining-Inv own kept (a ∷ us) u w i =
      absorbed-Inv own kept (lookup_server net (suc (length (a ∷ us))) own (a ∷ us) (u, w))
        (lookup_server-Inv net Inv (length (a ∷ us)) own (a ∷ us) u w exchanges registers
          (omega arith) i).0

  pub lookup-Inv :
      (own : ParsedUri) (b : Bool) (us : List ParsedUri) (u : LookupUser) (w : W)
      → Inv w
      → Inv
          (lookup net own
            (record { force = b; limited = false; always_use_cache = false })
            us
            (u, w)).1.1
  unfolding lookup
  lookup-Inv own b us u w i = ask_remaining-Inv own _ _ u w i
