-- ===== src/Balloon/Handlers.antt =====
-- `MaybeGUnzip` of imessage/imessage/direct/util/gnuzip, and `handleYouTubeBalloonData` and
-- `handleLinkBalloonData` of balloonparse.go.
use imessage_for_me.Base.{
  ℕ, List, [], ◌++◌, Option, none, some, Bytes, codes, if◌then◌else◌, is_nil,
}
use imessage_for_me.Apns.Payload.{Run, returned, ◌>>=◌}
use imessage_for_me.Archive.{Value, dict, Entries, get, Archive, parse_archive}
use imessage_for_me.Balloon.{
  get_key_as_string, get_rich_link_url, RichLinkMetadata, Attempt, ok, failed, ◌>>?◌, attempt,
  rich_link,
}

-- What reading a gzip stream to its end comes to; `not_gzip` is the error of its header.
pub data Gunzip : Type 0 where
  not_gzip broken : Gunzip
  unzipped : Bytes → Gunzip

-- `BalloonPayload`. A payload that is nil is none.
pub record BalloonPayload : Type 0 where
  pub attachments : List Bytes
  pub payload : Option Bytes

-- The libraries and the network.
pub record BalloonLibraries : Type 0 where
  pub gunzip : Bytes → Gunzip
  pub archive_of : Bytes → Option Archive
  pub balloon_payload_of : Bytes → Option BalloonPayload
  pub fetch : Bytes → Option Bytes

abbrev maybe_unzipped : Bytes → Gunzip → Option Bytes
maybe_unzipped body not_gzip = some body
maybe_unzipped body broken = none
maybe_unzipped body (unzipped s) = some s

-- `MaybeGUnzip`.
unfoldable pub maybe_gunzip : (Bytes → Gunzip) → Bytes → Option Bytes
maybe_gunzip gunzip body = maybe_unzipped body (gunzip body)

-- `metadataRaw.(map[string]any)` of what `Parse` returned.
abbrev as_map : Option Value → Attempt Entries
as_map (some (dict es)) = ok es
as_map v = failed

module _ (env : BalloonLibraries) (fuel : ℕ) where
  -- The archive in a payload, as a map.
  unfoldable pub metadata_of : Bytes → Run (Attempt Entries)
  metadata_of payload = do v ← parse_archive fuel (env.archive_of payload); returned (as_map v)

  abbrev tagged : Bytes → Bytes → Bytes → Bytes
  tagged before text after = if is_nil text then [] else before ++ text ++ after

  caption_of : Option Value → Bytes
  caption_of (some (dict es)) =
      tagged (codes "<br><br><b>") (get_key_as_string es (codes "caption")) (codes "</b>")
      ++ tagged (codes "<br>") (get_key_as_string es (codes "subcaption")) []
  caption_of v = []

  -- `handleYouTubeBalloonData`.
  unfoldable pub handle_you_tube_balloon_data : Bytes → Run (Attempt Bytes)
  unfolding caption_of
  handle_you_tube_balloon_data body = attempt (maybe_gunzip env.gunzip body) >>? λ payload.
      metadata_of payload >>? λ metadata.
      attempt (get_rich_link_url (get (codes "URL") metadata)) >>? λ url.
      returned (ok (url ++ caption_of (get (codes "userInfo") metadata)))

  -- The payload that holds the archive: the whole where it is not wrapped.
  abbrev archive_bytes : Bytes → BalloonPayload → Bytes
  archive_bytes whole p = elim p.payload [
    | none ↦ if is_nil p.attachments then whole else []
    | some inner ↦ inner
  ]

  unfoldable pub metadata_link : List Bytes → Option Value → Run (Attempt (Option RichLinkMetadata))
  metadata_link attachments none = returned (ok none)
  metadata_link attachments (some (dict rlm)) = rich_link env.fetch attachments rlm
  metadata_link attachments (some v) = returned failed

  -- `handleLinkBalloonData`.
  unfoldable pub handle_link_balloon_data : Bytes → Run (Attempt (Option RichLinkMetadata))
  unfolding metadata_link
  handle_link_balloon_data body = attempt (maybe_gunzip env.gunzip body) >>? λ payload.
      attempt (env.balloon_payload_of payload) >>? λ p.
      metadata_of (archive_bytes payload p) >>? λ metadata.
      metadata_link p.attachments (get (codes "richLinkMetadata") metadata)
