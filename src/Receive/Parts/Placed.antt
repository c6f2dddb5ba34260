-- ===== src/Receive/Parts/Placed.antt =====
-- Where the parts of a text message stand in it.
use mathlib.Core.List.{append_assoc, append-nil}
use imessage_for_me.Base.{
  ℕ, zero, suc, ◌+◌, ◌≡◌, ◌⊎◌, inl, inr, refl, sym, ap, ◌∙◌, Bool, true, false, List, [], ◌∷◌, ◌++◌,
  Option, none, some, arith, length, drop, All, All-weaken, if◌then◌else◌, if_elim, some_inj,
}
use imessage_for_me.Receive.{Attachment}
use imessage_for_me.Receive.Wire.{SmsChunk}
use imessage_for_me.Receive.Text.{text_len}
use imessage_for_me.Receive.Parts.{
  XmlParts, is_text, is_attachment, chunk_attachment, chunk_text, sms_loop, sms_parts,
}

-- How much of a message a part takes, and where the part of a number starts.
abbrev pub size : SmsChunk → ℕ
size chunk = if is_text chunk then text_len chunk.content else if is_attachment chunk then 1 else 0

abbrev pub offset : ℕ → List SmsChunk → ℕ
offset zero chunks = 0
offset (suc n) [] = 0
offset (suc n) (chunk ∷ chunks) = size chunk + offset n chunks

abbrev pub get_elem? : ℕ → List SmsChunk → Option SmsChunk
get_elem? n [] = none
get_elem? zero (chunk ∷ chunks) = some chunk
get_elem? (suc n) (chunk ∷ chunks) = get_elem? n chunks

-- An attachment that is a part of the message, at its place behind the parts in front of it.
pub record IsPlaced (i start : ℕ) (chunks : List SmsChunk) (a : Attachment) : Type 0 where
  pub number : ℕ
  pub chunk : SmsChunk
  pub is_chunk : get_elem? number chunks ≡ some chunk
  pub is_kept : is_attachment chunk ≡ true
  pub is_made : a ≡ chunk_attachment (i + number) (start + offset number chunks) chunk

-- The text of a message is its last part that is one.
pub record IsLastText (i start : ℕ) (chunks : List SmsChunk) (out : XmlParts) : Type 0 where
  pub number : ℕ
  pub chunk : SmsChunk
  pub is_chunk : get_elem? number chunks ≡ some chunk
  pub is_kept : is_text chunk ≡ true
  pub is_last : All (λ c. is_text c ≡ false) (drop (suc number) chunks)
  pub is_text_of : out.text ≡ chunk.content
  pub is_made : out.text_part ≡ some (chunk_text (i + number) (start + offset number chunks) chunk)

-- No part is a text, and the text is as it was before.
pub record HasNoText (chunks : List SmsChunk) (before out : XmlParts) : Type 0 where
  pub no_text : All (λ c. is_text c ≡ false) chunks
  pub same_text : out.text ≡ before.text
  pub same_part : out.text_part ≡ before.text_part

abbrev pub number_of : (SmsChunk → Bool) → List SmsChunk → ℕ
number_of p [] = 0
number_of p (chunk ∷ chunks) = (if p chunk then 1 else 0) + number_of p chunks

size_text : (c : SmsChunk) → is_text c ≡ true → size c ≡ text_len c.content
size_text c e = ground (arith, e)

size_attachment : (c : SmsChunk) → is_attachment c ≡ true → size c ≡ 1
size_attachment c e = ground (arith, e)

size_other : (c : SmsChunk) → is_text c ≡ false → is_attachment c ≡ false → size c ≡ 0
size_other c e f = ground (arith, e, f)

-- The same places, counted otherwise.
attachment_places :
    (c : SmsChunk) (m n k l : ℕ) → m ≡ n → k ≡ l → chunk_attachment m k c ≡ chunk_attachment n l c
attachment_places c m n k l e f = rw e (rw f refl)

text_places :
    (c : SmsChunk) (m n k l : ℕ) → m ≡ n → k ≡ l → some (chunk_text m k c) ≡ some (chunk_text n l c)
text_places c m n k l e f = rw e (rw f refl)

module _ (i start n : ℕ) (c : SmsChunk) (chunks : List SmsChunk) (e : n ≡ start + size c) where
  IsPlaced-later : (a : Attachment) → IsPlaced (suc i) n chunks a → IsPlaced i start (c ∷ chunks) a
  IsPlaced-later a p = record {
    number = suc p.number;
    chunk = p.chunk;
    is_chunk = p.is_chunk;
    is_kept = p.is_kept;
    is_made = p.is_made ∙ attachment_places p.chunk _ _ _ _ (omega arith) (omega (arith, e));
  }

  IsLastText-later :
      (out : XmlParts) → IsLastText (suc i) n chunks out → IsLastText i start (c ∷ chunks) out
  IsLastText-later out p = record {
    number = suc p.number;
    chunk = p.chunk;
    is_chunk = p.is_chunk;
    is_kept = p.is_kept;
    is_last = p.is_last;
    is_text_of = p.is_text_of;
    is_made = p.is_made ∙ text_places p.chunk _ _ _ _ (omega arith) (omega (arith, e));
  }

-- What the loop leaves, from a part and a place on.
record Left (i start : ℕ) (chunks : List SmsChunk) (before out : XmlParts) : Type 0 where
  later : List Attachment
  is_appended : out.attachments ≡ before.attachments ++ later
  placed : All (IsPlaced i start chunks) later
  number : length later ≡ number_of is_attachment chunks
  text : HasNoText chunks before out ⊎ IsLastText i start chunks out

module _ (i start : ℕ) (c : SmsChunk) (chunks : List SmsChunk) (before out : XmlParts) where
  Left-text :
      is_text c ≡ true
      → Left
          (suc i)
          (start + text_len c.content)
          chunks
          (record before { text = c.content; text_part = some (chunk_text i start c) })
          out
      → Left i start (c ∷ chunks) before out
  Left-text e l = record {
    later = l.later;
    is_appended = l.is_appended;
    placed =
        All-weaken (IsPlaced (suc i) (start + text_len c.content) chunks) _ l.later
          (IsPlaced-later i start _ c chunks here) l.placed;
    number = rw e (l.number ∙ omega arith);
    text = elim l.text [
      | inl h ↦ inr (record {
        number = 0;
        chunk = c;
        is_chunk = refl;
        is_kept = e;
        is_last = h.no_text;
        is_text_of = h.same_text;
        is_made = h.same_part ∙ text_places c _ _ _ _ (omega arith) (omega arith);
      })
      | inr h ↦ inr (IsLastText-later i start _ c chunks here out h)
    ];
  }
    where
      here : start + text_len c.content ≡ start + size c
      here = omega (arith, size_text c e)

  Left-attachment :
      is_text c ≡ false
      → is_attachment c ≡ true
      → Left
          (suc i)
          (start + 1)
          chunks
          (record before { attachments = before.attachments ++ chunk_attachment i start c ∷ [] })
          out
      → Left i start (c ∷ chunks) before out
  Left-attachment e f l = record {
    later = chunk_attachment i start c ∷ l.later;
    is_appended = l.is_appended ∙ append_assoc before.attachments _ l.later;
    placed = (
      record {
        number = 0;
        chunk = c;
        is_chunk = refl;
        is_kept = f;
        is_made = attachment_places c _ _ _ _ (omega arith) (omega arith);
      },
      All-weaken (IsPlaced (suc i) (start + 1) chunks) _ l.later
          (IsPlaced-later i start _ c chunks here) l.placed,
    );
    number = counted (is_attachment c) f l.number;
    text = elim l.text [
      | inl h ↦
          inl
            (record { no_text = (e, h.no_text); same_text = h.same_text; same_part = h.same_part })
      | inr h ↦ inr (IsLastText-later i start _ c chunks here out h)
    ];
  }
    where
      here : start + 1 ≡ start + size c
      here = omega (arith, size_attachment c f)

      counted : {m n : ℕ} (b : Bool) → b ≡ true → m ≡ n → suc m ≡ (if b then 1 else 0) + n
      counted b g h = rw g (omega (arith, h))

  Left-other :
      is_text c ≡ false
      → is_attachment c ≡ false
      → Left (suc i) start chunks before out
      → Left i start (c ∷ chunks) before out
  Left-other e f l = record {
    later = l.later;
    is_appended = l.is_appended;
    placed =
        All-weaken (IsPlaced (suc i) start chunks) _ l.later
          (IsPlaced-later i start _ c chunks here) l.placed;
    number = rw f (l.number ∙ omega arith);
    text = elim l.text [
      | inl h ↦
          inl
            (record { no_text = (e, h.no_text); same_text = h.same_text; same_part = h.same_part })
      | inr h ↦ inr (IsLastText-later i start _ c chunks here out h)
    ];
  }
    where
      here : start ≡ start + size c
      here = omega (arith, size_other c e f)

sms_loop-Left :
    (i start : ℕ) (chunks : List SmsChunk) (before : XmlParts)
    → Left i start chunks before (sms_loop i start chunks before)
unfolding sms_loop
sms_loop-Left i start [] before = record {
  later = [];
  is_appended = sym (append-nil before.attachments);
  placed = tt;
  number = refl;
  text = inl (record { no_text = tt; same_text = refl; same_part = refl });
}
sms_loop-Left i start (c ∷ chunks) before =
    if_elim (Left i start (c ∷ chunks) before) (is_text c)
      (λ e. Left-text i start c chunks before _ e (sms_loop-Left (suc i) _ chunks _))
      λ e.
        if_elim (Left i start (c ∷ chunks) before) (is_attachment c)
          (λ f. Left-attachment i start c chunks before _ e f (sms_loop-Left (suc i) _ chunks _))
          (λ f.
            Left-other i start c chunks before _ e f (sms_loop-Left (suc i) start chunks before))

-- The parts of a text message and what is reported of them.
pub record IsLaidOut (chunks : List SmsChunk) (out : XmlParts) : Type 0 where
  pub placed : All (IsPlaced 0 0 chunks) out.attachments
  pub number : length out.attachments ≡ number_of is_attachment chunks
  pub text :
      HasNoText chunks (record { text = []; text_part = none; attachments = [] }) out
      ⊎ IsLastText 0 0 chunks out

-- The loop of `handleIncomingSMS` makes one attachment of each part that is neither text nor layout,
-- with the number of the part and the place behind all that stands in front of it: a text takes its
-- UTF-16 units, an attachment one, a layout none. The reported text is the last text part at its
-- place, and there is none exactly when no part is text.
pub sms_parts-IsLaidOut : (chunks : List SmsChunk) → IsLaidOut chunks (sms_parts chunks)
unfolding sms_parts
sms_parts-IsLaidOut chunks =
    let l = sms_loop-Left 0 0 chunks (record { text = []; text_part = none; attachments = [] }) in
    record {
      placed = rw l.is_appended l.placed;
      number = ap length l.is_appended ∙ l.number;
      text = l.text;
    }

-- A part ends before the next one starts.
pub offset_next :
    (n : ℕ) (chunks : List SmsChunk) (c : SmsChunk)
    → get_elem? n chunks ≡ some c
    → offset (suc n) chunks ≡ offset n chunks + size c
offset_next n [] c e = absurd (ground (arith, e))
offset_next zero (d ∷ chunks) c e = rw (some_inj e) (omega arith)
offset_next (suc n) (d ∷ chunks) c e = omega (arith, offset_next n chunks c e)
