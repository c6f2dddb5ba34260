-- ===== src/Tests/Resolving.antt =====
-- Identifiers that are looked up before a chat.
use imessage_for_me.Base.{List, [], ◌∷◌, none, Bytes, codes}
use imessage_for_me.Uri.{ParsedUri, tel}
use imessage_for_me.Uri.Identifier.{Locale}
use imessage_for_me.Uri.Order.Sorted.{uri_key}
use imessage_for_me.Ids.Cache.{tuple_key, memory_get_many}
use imessage_for_me.Ids.Lookup.{Results}
use imessage_for_me.Tests.Lookups.{own, friend, fresh_user}

abbrev lower_case : Locale
lower_case = record { to_lower = λ s. s; national_e164 = λ s region. none }

abbrev service : ParsedUri
service = record { scheme = tel; identifier = codes "12345" }

abbrev asked : List Bytes
asked = codes "12345" ∷ codes "a@b.c" ∷ []

abbrev remembered : Results
remembered = memory_get_many fresh_user.lookup_cache own (friend ∷ [])
