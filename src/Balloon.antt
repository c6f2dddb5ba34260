-- ===== src/Balloon.antt =====
-- imessage/imessage/direct/balloonparse.go: the metadata of links and of YouTube videos in messages.
-- Decoding and downloading are arguments.
pub mod Handlers
pub mod Panics
pub mod Size
unfoldable pub use Size.{parse_balloon_image_size}
use imessage_for_me.Base.{
  ℕ, zero, suc, ◌+◌, ◌-◌, ◌*◌, ◌^◌, Bool, true, false, not, ◌&&◌, ◌||◌, List, [], ◌∷◌, ◌++◌, Option,
  none, some, Bytes, codes, equal, ltb, leb, ◌==◌, if◌then◌else◌, length, is_nil,
}
use imessage_for_me.Base.Int.{signed, is_below}
use imessage_for_me.Apns.Payload.{Run, returned, panicked, out_of_fuel, ◌>>=◌}
use imessage_for_me.Uri.{is_digit}
use imessage_for_me.Archive.{
  Value, text, number, dict, Entries, no_entries, get, Archive, parse_archive,
}

-- `getKeyAsString`: a nil map has no entries.
unfoldable pub get_key_as_string : Entries → Bytes → Bytes
get_key_as_string es key = elim (get key es) [ some (text s) ↦ s | _ ↦ [] ]

-- `getRichLinkURL`; `none` is an error.
unfoldable pub get_rich_link_url : Option Value → Option Bytes
get_rich_link_url (some (dict es)) = some (get_key_as_string es (codes "NS.relative"))
get_rich_link_url v = none

-- `RichLinkAsset`, with the source and the size that the code always gives it. Data that is nil is
-- none.
pub record RichLinkAsset : Type 0 where
  pub mime_type : Bytes
  pub url : Bytes
  pub content : Option Bytes
  pub width : ℕ
  pub height : ℕ

-- `RichLinkMetadata`.
pub record RichLinkMetadata : Type 0 where
  pub original_url : Bytes
  pub url : Bytes
  pub title : Bytes
  pub summary : Bytes
  pub selected_text : Bytes
  pub icon : Option RichLinkAsset
  pub image : Option RichLinkAsset

-- What a function that may fail returns inside a run.
pub data Attempt {ℓ} (A : Type ℓ) : Type ℓ where
  ok : A → Attempt A
  failed : Attempt A

infixl 5 ◌>>?◌
abbrev pub ◌>>?◌ {ℓ κ} :
    {A : Type ℓ} {B : Type κ} → Run (Attempt A) → (A → Run (Attempt B)) → Run (Attempt B)
returned (ok a) >>? f = f a
returned failed >>? f = returned failed
panicked >>? f = panicked
out_of_fuel >>? f = out_of_fuel

abbrev pub attempt {ℓ} : {A : Type ℓ} → Option A → Run (Attempt A)
attempt none = returned failed
attempt (some a) = returned (ok a)

abbrev pub no_asset : RichLinkAsset
no_asset = record { mime_type = []; url = []; content = none; width = 0; height = 0 }

unfoldable pub get_elem? : List Bytes → ℕ → Option Bytes
get_elem? [] n = none
get_elem? (x ∷ xs) zero = some x
get_elem? (x ∷ xs) (suc n) = get_elem? xs n

abbrev pub in_range : Option Bytes → Run (Option Bytes)
in_range none = panicked
in_range (some content) = returned (some content)

-- The test `int(idx) < len(attachments)`, and the read `attachments[idx]` behind it, for an index
-- that is a `uint64`. Nothing is read where the test fails.
unfoldable pub substitute : List Bytes → ℕ → Run (Option Bytes)
substitute attachments idx =
    if is_below (signed idx) (length attachments)
    then in_range (get_elem? attachments idx)
    else returned none

substitute_of : List Bytes → Option Value → Run (Option Bytes)
unfolding substitute
substitute_of attachments (some (number idx)) = substitute attachments idx
substitute_of attachments v = returned none

-- The first half of `parseBalloonImage`: the image itself.
unfoldable pub image_part : List Bytes → Option Value → Run (Attempt (Option RichLinkAsset))
unfolding substitute_of
image_part attachments none = returned (ok none)
image_part attachments (some (dict es)) = do
  content ← substitute_of attachments (get (codes "richLinkImageAttachmentSubstituteIndex") es)
  returned (
      ok (
        some (record no_asset {
          mime_type = get_key_as_string es (codes "MIMEType");
          content = content;
        })))
image_part attachments (some v) = returned failed

abbrev or_no_asset : Option RichLinkAsset → RichLinkAsset
or_no_asset none = no_asset
or_no_asset (some a) = a

abbrev sized : ℕ × ℕ → RichLinkAsset → RichLinkAsset
sized (width, height) a =
    if not (width == 0) && not (height == 0) then record a { width = width; height = height } else a

-- The libraries and the network. A failed download is none.
module _ (fetch : Bytes → Option Bytes) where
  unfoldable pub download : RichLinkAsset → Attempt RichLinkAsset
  download a = elim a.content [
    | some content ↦ ok a
    | none ↦ elim (fetch a.url) [
      | none ↦ failed
      | some content ↦ ok (record a { content = some content })
    ]
  ]

  -- The second half of `parseBalloonImage`: its metadata.
  unfoldable pub metadata_part :
      Option RichLinkAsset → Option Value → Run (Attempt (Option RichLinkAsset))
  metadata_part asset none = returned (ok asset)
  metadata_part asset (some (dict es)) =
      attempt (get_rich_link_url (get (codes "URL") es)) >>? λ url.
      returned (download (record (or_no_asset asset) { url = url })) >>? λ a.
      returned
        (ok (some (sized (parse_balloon_image_size (get_key_as_string es (codes "size"))) a)))
  metadata_part asset (some v) = returned failed

  -- `parseBalloonImage`.
  unfoldable pub parse_balloon_image :
      List Bytes → Entries → Bytes → Run (Attempt (Option RichLinkAsset))
  parse_balloon_image attachments rlm key = image_part attachments (get key rlm) >>? λ asset.
      metadata_part asset (get (key ++ codes "Metadata") rlm)

  -- The end of `handleLinkBalloonData`.
  unfoldable pub rich_link : List Bytes → Entries → Run (Attempt (Option RichLinkMetadata))
  rich_link attachments rlm = attempt (get_rich_link_url (get (codes "URL") rlm)) >>? λ url.
      attempt (get_rich_link_url (get (codes "originalURL") rlm)) >>? λ original_url.
      parse_balloon_image attachments rlm (codes "icon") >>? λ icon.
      parse_balloon_image attachments rlm (codes "image") >>? λ image. returned (
        ok (
          some (record {
            original_url = original_url;
            url = url;
            title = get_key_as_string rlm (codes "title");
            summary = get_key_as_string rlm (codes "summary");
            selected_text = get_key_as_string rlm (codes "selectedText");
            icon = icon;
            image = image;
          })))
