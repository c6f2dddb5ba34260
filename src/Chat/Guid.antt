-- ===== src/Chat/Guid.antt =====
-- Chat identifiers are read back from their GUIDs.
use imessage_for_me.Base.{
  ℕ, ◌≡◌, refl, sym, Bool, true, false, not, ◌&&◌, [], ◌∷◌, ◌++◌, some, Bytes, equal, ◌==◌, is_nil,
  arith,
}
use imessage_for_me.Chat.{identifier_of, parse_identifier, to_string}
use imessage_for_me.Tapback.{split}

-- A text without the separator of GUIDs.
abbrev pub no_semicolon : Bytes → Bool
no_semicolon [] = true
no_semicolon (c ∷ cs) = not (c == b';') && no_semicolon cs

split-append :
    (a rest : Bytes)
    → no_semicolon a ≡ true
    → split b';' (a ++ b';' ∷ rest) ≡ (a, (split b';' rest).0 ∷ (split b';' rest).1)
unfolding split
split-append [] rest h = refl
split-append (c ∷ cs) rest h = ground (arith, split-append cs rest)

split_last : (a : Bytes) → no_semicolon a ≡ true → split b';' a ≡ (a, [])
unfolding split
split_last [] h = refl
split_last (c ∷ cs) h = ground (arith, split_last cs)

split_guid :
    (service local : Bytes) (kind : ℕ)
    → no_semicolon service ≡ true
    → no_semicolon local ≡ true
    → (kind == b';') ≡ false
    → split b';' (service ++ b';' ∷ kind ∷ b';' ∷ local) ≡ (service, (kind ∷ []) ∷ local ∷ [])
split_guid service local kind s l k =
    rw (split-append service (kind ∷ b';' ∷ local) s)
      (rw (split-append (kind ∷ []) local (rw k)) (rw (split_last local l)))

guid_filled : (s rest : Bytes) → is_nil (s ++ b';' ∷ rest) ≡ false
guid_filled [] rest = refl
guid_filled (c ∷ cs) rest = refl

guid_of :
    (service local : Bytes) (kind : ℕ) (g : Bool)
    → no_semicolon service ≡ true
    → no_semicolon local ≡ true
    → (kind == b';') ≡ false
    → equal (kind ∷ []) (b'+' ∷ []) ≡ g
    → parse_identifier (service ++ b';' ∷ kind ∷ b';' ∷ local)
      ≡ some (record { local_id = local; service = service; is_group = g })
unfolding parse_identifier identifier_of
guid_of service local kind g s l k e =
    rw (guid_filled service (kind ∷ b';' ∷ local), split_guid service local kind s l k, sym e) refl

-- `ParseIdentifier` reads back the `String` of an identifier with a local ID, if neither the service
-- nor the local ID has a semicolon.
pub parse_identifier-to_string :
    (local service : Bytes) (is_group : Bool)
    → is_nil local ≡ false
    → no_semicolon service ≡ true
    → no_semicolon local ≡ true
    → parse_identifier
        (to_string (record { local_id = local; service = service; is_group = is_group }))
      ≡ some (record { local_id = local; service = service; is_group = is_group })
unfolding to_string equal
parse_identifier-to_string local service true full s l =
    rw full (guid_of service local b'+' true s l refl refl)
parse_identifier-to_string local service false full s l =
    rw full (guid_of service local b'-' false s l refl refl)
