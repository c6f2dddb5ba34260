-- ===== src/Receive/Parts/Whole.antt =====
-- An iMessage with markup is reported with all of its attachments, or with none and an error text.
use mathlib.Core.List.{append_assoc, append-nil}
use imessage_for_me.Base.{
  ℕ, zero, suc, ◌+◌, ◌≡◌, ◌⊎◌, inl, inr, refl, sym, ap, ◌∙◌, List, [], ◌∷◌, ◌++◌, Option, none,
  some, Bytes, arith, Option-cases, some_inj,
}
use imessage_for_me.Receive.{
  pos, MessagePartInfo, Attachment, IMessage, UploadedAttachment, MessagePart, AttachmentMessageXml,
}
use imessage_for_me.Receive.Wire.{Libraries}
use imessage_for_me.Receive.Text.{text_len}
use imessage_for_me.Receive.Parts.{
  get_inline_attachment, convert_attachment, with_mime_type, Converted, take_in, convert_loop,
  text_loop, XmlParts, failure_text, breadcrumb, with_breadcrumb, after_loop, nothing_converted,
  xml_parts,
}

abbrev both : Option Attachment → Option (List Attachment) → Option (List Attachment)
both (some a) (some rest) = some (with_mime_type a ∷ rest)
both a rest = none

-- All attachments converted, each with its number, where none is refused.
abbrev pub converted_all :
    (Bytes → Option Bytes) → ℕ → List UploadedAttachment → Option (List Attachment)
converted_all inline i [] = some []
converted_all inline i (att ∷ atts) =
    both (convert_attachment inline i att) (converted_all inline (suc i) atts)

abbrev pub get_elem? : List UploadedAttachment → ℕ → Option UploadedAttachment
get_elem? [] n = none
get_elem? (att ∷ atts) zero = some att
get_elem? (att ∷ atts) (suc n) = get_elem? atts n

-- An attachment that is refused.
pub record IsRefused (inline : Bytes → Option Bytes) (i : ℕ) (atts : List UploadedAttachment)
    (att : UploadedAttachment) : Type 0 where
  pub number : ℕ
  pub is_one : get_elem? atts number ≡ some att
  pub fails : convert_attachment inline (i + number) att ≡ none

-- The two ends of the loop.
record Ended (inline : Bytes → Option Bytes) (i : ℕ) (atts : List UploadedAttachment)
    (before after : Converted) : Type 0 where
  all_taken :
      (rest : List Attachment)
      → converted_all inline i atts ≡ some rest
      → (after.attachments ≡ before.attachments ++ rest) × (after.refused ≡ before.refused)
  one_refused :
      converted_all inline i atts ≡ none
      → (att : UploadedAttachment) × (after.refused ≡ some att) × IsRefused inline i atts att

module _ (inline : Bytes → Option Bytes) (i : ℕ) (att : UploadedAttachment)
    (atts : List UploadedAttachment) (c after : Converted) where
  IsRefused-later :
      (x : UploadedAttachment) → IsRefused inline (suc i) atts x → IsRefused inline i (att ∷ atts) x
  IsRefused-later x r = record {
    number = suc r.number;
    is_one = r.is_one;
    fails = ap (λ n. convert_attachment inline n x) (omega arith) ∙ r.fails;
  }

  Ended-taken :
      (a : Attachment)
      → convert_attachment inline i att ≡ some a
      → Ended inline (suc i) atts (take_in c att (some a)) after
      → Ended inline i (att ∷ atts) c after
  Ended-taken a e ih = record {
    all_taken = λ rest h. taken (converted_all inline (suc i) atts) refl rest (rw e at h);
    one_refused = λ h. refused (converted_all inline (suc i) atts) refl (rw e at h);
  }
    where
      taken :
          (o : Option (List Attachment))
          → converted_all inline (suc i) atts ≡ o
          → (rest : List Attachment) → both (some a) o ≡ some rest
          → (after.attachments ≡ c.attachments ++ rest) × (after.refused ≡ c.refused)
      taken none f rest h = absurd (ground (arith, h))
      taken (some more) f rest h =
          let (same, none_more) = ih.all_taken more f in
          (
            same
                ∙ append_assoc c.attachments (with_mime_type a ∷ []) more
                ∙ ap (λ xs. c.attachments ++ xs) (some_inj h),
            none_more,
          )

      refused :
          (o : Option (List Attachment))
          → converted_all inline (suc i) atts ≡ o
          → both (some a) o ≡ none
          → (x : UploadedAttachment) × (after.refused ≡ some x) × IsRefused inline i (att ∷ atts) x
      refused none f h = let (x, same, r) = ih.one_refused f in (x, same, IsRefused-later x r)
      refused (some more) f h = absurd (ground (arith, h))

  Ended-refused :
      convert_attachment inline i att ≡ none
      → Ended inline (suc i) atts (take_in c att none) after
      → Ended inline i (att ∷ atts) c after
  Ended-refused e ih = record {
    all_taken = λ rest h. absurd (ground (arith, rw e at h));
    one_refused = λ h. by_rest (converted_all inline (suc i) atts) refl;
  }
    where
      here : IsRefused inline i (att ∷ atts) att
      here = record {
        number = 0;
        is_one = refl;
        fails = ap (λ n. convert_attachment inline n att) (omega arith) ∙ e;
      }

      by_rest :
          (o : Option (List Attachment))
          → converted_all inline (suc i) atts ≡ o
          → (x : UploadedAttachment) × (after.refused ≡ some x) × IsRefused inline i (att ∷ atts) x
      by_rest none f = let (x, same, r) = ih.one_refused f in (x, same, IsRefused-later x r)
      by_rest (some more) f = (att, (ih.all_taken more f).1, here)

convert_loop-Ended :
    (inline : Bytes → Option Bytes) (i : ℕ) (atts : List UploadedAttachment) (c : Converted)
    → Ended inline i atts c (convert_loop inline i atts c)
unfolding convert_loop
convert_loop-Ended inline i [] c = record {
  all_taken = λ rest e. (rw (← some_inj e) (sym (append-nil c.attachments)), refl);
  one_refused = λ e. absurd (ground (arith, e));
}
convert_loop-Ended inline i (att ∷ atts) c = elim (Option-cases (convert_attachment inline i att)) [
  | inl e ↦
      Ended-refused inline i att atts c _ e
        (rw e (convert_loop-Ended inline (suc i) atts (take_in c att none)))
  | inr (a, e) ↦
      Ended-taken inline i att atts c _ a e
        (rw e (convert_loop-Ended inline (suc i) atts (take_in c att (some a))))
]

-- Where the last text of a message stands: behind the attachments and the other texts.
abbrev pub text_units : (Bytes → Bytes) → List MessagePart → ℕ
text_units reverse [] = 0
text_units reverse (t ∷ ts) = text_len (reverse t.value) + text_units reverse ts

abbrev pub text_at : (Bytes → Bytes) → MessagePart → ℕ → Option MessagePartInfo
text_at reverse t n = some (record {
  part_id = t.part_idx;
  start_index = pos n;
  length = pos (text_len (reverse t.value));
})

-- The loop over the texts reports the last one, behind the place where the loop starts and all texts
-- in front of it.
pub text_loop_last :
    (reverse : Bytes → Bytes) (index : ℕ) (ts : List MessagePart) (t : MessagePart)
    (part : Option MessagePartInfo)
    → text_loop reverse index (ts ++ t ∷ []) part
      ≡ text_at reverse t (index + text_units reverse ts)
unfolding text_loop
text_loop_last reverse index [] t part = ap (text_at reverse t) (omega arith)
text_loop_last reverse index (s ∷ ts) t part =
    text_loop_last reverse (index + text_len (reverse s.value)) ts t _
    ∙ ap (text_at reverse t) (omega arith)

-- The text that the message has but for a failure.
abbrev pub shown : IMessage → AttachmentMessageXml → Bytes
shown m xml = (with_breadcrumb m.text (breadcrumb m.text xml.objects)).0

-- Every attachment was converted, each with its number as its place.
pub record AllTaken (env : Libraries) (m : IMessage) (xml : AttachmentMessageXml) (out : XmlParts)
    : Type 0 where
  pub attachments : converted_all (get_inline_attachment m) 0 xml.attachments ≡ some out.attachments
  pub text : out.text ≡ shown m xml

-- Some attachment was refused: none is reported, and the text starts with the error.
pub record NoneTaken (env : Libraries) (m : IMessage) (xml : AttachmentMessageXml) (out : XmlParts)
    : Type 0 where
  pub attachment : UploadedAttachment
  pub is_refused : IsRefused (get_inline_attachment m) 0 xml.attachments attachment
  pub attachments : out.attachments ≡ []
  pub text : out.text ≡ failure_text (env.error_text attachment) (shown m xml)

-- An iMessage with markup is reported with all of its attachments, converted in order, or, where one
-- of them is refused, without any and with an error in front of its text.
pub xml_parts_lem :
    (env : Libraries) (m : IMessage) (xml : AttachmentMessageXml)
    → AllTaken env m xml (xml_parts env m xml) ⊎ NoneTaken env m xml (xml_parts env m xml)
unfolding xml_parts
xml_parts_lem env m xml =
    elim (Option-cases (converted_all (get_inline_attachment m) 0 xml.attachments)) [
      | inl e ↦
          let (att, same, r) = ended.one_refused e in
          inr (record {
            attachment = att;
            is_refused = r;
            attachments = ap (λ o. (after loop.attachments o).attachments) same;
            text = ap (λ o. (after loop.attachments o).text) same;
          })
      | inr (rest, e) ↦
          let (same, none_more) = ended.all_taken rest e in
          inl (record {
            attachments =
                e
                ∙ ap some (sym same)
                ∙ ap (λ o. some (after loop.attachments o).attachments) (sym none_more);
            text = ap (λ o. (after loop.attachments o).text) none_more;
          })
    ]
  where
    loop : Converted
    loop = convert_loop (get_inline_attachment m) 0 xml.attachments nothing_converted

    after : List Attachment → Option UploadedAttachment → XmlParts
    after = after_loop env xml.text (with_breadcrumb m.text (breadcrumb m.text xml.objects))

    ended : Ended (get_inline_attachment m) 0 xml.attachments nothing_converted loop
    ended = convert_loop-Ended (get_inline_attachment m) 0 xml.attachments nothing_converted
