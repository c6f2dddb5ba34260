-- ===== src/Receive/Stops.antt =====
-- Runs that come to an end, and the balloons of a message as such runs, if the archives in them are.
use imessage_for_me.Base.{◌≡◌, ◌≢◌, refl, List, Option, none, some, Bytes, codes, arith}
use imessage_for_me.Apns.Payload.{Run, returned, panicked, out_of_fuel, ◌>>=◌}
use imessage_for_me.Archive.{Value, null, dict, Entries, get, parse_archive}
use imessage_for_me.Archive.Ranked.{Ends, Ends-bind}
use imessage_for_me.Balloon.{
  RichLinkAsset, Attempt, failed, ◌>>?◌, attempt, image_part, metadata_part, parse_balloon_image,
  rich_link, get_rich_link_url,
}
use imessage_for_me.Balloon as Balloon
use imessage_for_me.Balloon.Handlers.{
  metadata_of, metadata_link, handle_you_tube_balloon_data, handle_link_balloon_data, maybe_gunzip,
}
use imessage_for_me.Receive.Wire.{Libraries}

-- A run that returns or panics.
abbrev pub Stops {ℓ} : {A : Type ℓ} → Run A → Type 0
Stops r = Ends (λ _. Unit {0}) r

pub Stops-bind {ℓ κ} :
    {A : Type ℓ} {B : Type κ} (r : Run A) (f : A → Run B)
    → Stops r
    → ((a : A) → Stops (f a))
    → Stops (r >>= f)
Stops-bind r f h k = Ends-bind (λ _. Unit {0}) (λ _. Unit {0}) r f h (λ a u. k a)

Stops-attempt {ℓ κ} :
    {A : Type ℓ} {B : Type κ} (r : Run (Attempt A)) (f : A → Run (Attempt B))
    → Stops r
    → ((a : A) → Stops (f a))
    → Stops (r >>? f)
Stops-attempt (returned (Balloon.ok a)) f h k = k a
Stops-attempt (returned failed) f h k = tt
Stops-attempt panicked f h k = tt
Stops-attempt out_of_fuel f h k = absurd h

attempt-Stops {ℓ} : {A : Type ℓ} (o : Option A) → Stops (attempt o)
attempt-Stops none = tt
attempt-Stops (some a) = tt

-- What never is `out_of_fuel`.
pub Stops-ne {ℓ} : {A : Type ℓ} (r : Run A) → r ≢ out_of_fuel → Stops r
Stops-ne (returned a) h = tt
Stops-ne panicked h = tt
Stops-ne out_of_fuel h = h refl

image_part-Stops : (attachments : List Bytes) (o : Option Value) → Stops (image_part attachments o)
unfolding image_part
image_part-Stops attachments o =
    Stops-ne _ λ (e : image_part attachments o ≡ out_of_fuel). ground (arith, e)

metadata_part-Stops :
    (fetch : Bytes → Option Bytes) (asset : Option RichLinkAsset) (o : Option Value)
    → Stops (metadata_part fetch asset o)
unfolding metadata_part
metadata_part-Stops fetch asset o =
    Stops-ne _ λ (e : metadata_part fetch asset o ≡ out_of_fuel). ground (arith, e)

parse_balloon_image-Stops :
    (fetch : Bytes → Option Bytes) (attachments : List Bytes) (rlm : Entries) (key : Bytes)
    → Stops (parse_balloon_image fetch attachments rlm key)
unfolding parse_balloon_image
parse_balloon_image-Stops fetch attachments rlm key =
    Stops-attempt (image_part attachments (get key rlm)) _
      (image_part-Stops attachments (get key rlm)) λ asset. metadata_part-Stops fetch asset _

rich_link-Stops :
    (fetch : Bytes → Option Bytes) (attachments : List Bytes) (rlm : Entries)
    → Stops (rich_link fetch attachments rlm)
unfolding rich_link
rich_link-Stops fetch attachments rlm =
    Stops-attempt _ _ (attempt-Stops (get_rich_link_url (get (codes "URL") rlm))) λ url.
      Stops-attempt _ _ (attempt-Stops (get_rich_link_url (get (codes "originalURL") rlm)))
        λ original.
          Stops-attempt _ _ (parse_balloon_image-Stops fetch attachments rlm (codes "icon")) λ icon.
            Stops-attempt _ _ (parse_balloon_image-Stops fetch attachments rlm (codes "image"))
              λ image. tt

module _ (env : Libraries)
    (archives : (body : Bytes)
      → Stops (parse_archive env.archive_calls (env.balloons.archive_of body))) where
  metadata_of-Stops : (body : Bytes) → Stops (metadata_of env.balloons env.archive_calls body)
  unfolding metadata_of
  metadata_of-Stops body = Stops-bind _ _ (archives body) λ v. tt

  link-Stops :
      (attachments : List Bytes) (o : Option Value)
      → Stops (metadata_link env.balloons env.archive_calls attachments o)
  unfolding metadata_link
  link-Stops attachments none = tt
  link-Stops attachments (some (dict rlm)) = rich_link-Stops env.balloons.fetch attachments rlm
  link-Stops attachments (some null) = tt
  link-Stops attachments (some _) = tt

  pub handle_link_balloon_data-Stops :
      (body : Bytes) → Stops (handle_link_balloon_data env.balloons env.archive_calls body)
  unfolding handle_link_balloon_data
  handle_link_balloon_data-Stops body =
      Stops-attempt _ _ (attempt-Stops (maybe_gunzip env.balloons.gunzip body)) λ payload.
        Stops-attempt _ _ (attempt-Stops (env.balloons.balloon_payload_of payload))
          λ p. Stops-attempt _ _ (metadata_of-Stops _) λ metadata. link-Stops p.attachments _

  pub handle_you_tube_balloon_data-Stops :
      (body : Bytes) → Stops (handle_you_tube_balloon_data env.balloons env.archive_calls body)
  unfolding handle_you_tube_balloon_data
  handle_you_tube_balloon_data-Stops body =
      Stops-attempt _ _ (attempt-Stops (maybe_gunzip env.balloons.gunzip body)) λ payload.
        Stops-attempt _ _ (metadata_of-Stops payload) λ metadata.
          Stops-attempt _ _ (attempt-Stops (get_rich_link_url (get (codes "URL") metadata)))
            λ url. tt

-- A value that may be missing, with what is returned without it.
pub Stops-elim {ℓ κ} :
    {A : Type ℓ} {B : Type κ} (o : Option A) (d : B) (f : A → Run B)
    → ((a : A) → Stops (f a))
    → Stops (elim o [ none ↦ returned d | some a ↦ f a ])
Stops-elim none d f h = tt
Stops-elim (some a) d f h = h a
