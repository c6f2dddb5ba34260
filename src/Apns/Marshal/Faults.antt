-- ===== src/Apns/Marshal/Faults.antt =====
-- Command structs that cannot be read back: `toStruct` on a slice of slices, and on flags.
use imessage_for_me.Base.{
  ℕ, ◌≡◌, true, false, Bool, List, [], ◌∷◌, Option, none, some, Bytes, ◌==◌, arith, ◌||◌,
}
use imessage_for_me.Apns.Command.{slice, slices}
use imessage_for_me.Apns.Payload.{Field, panicked}
use imessage_for_me.Apns.Marshal.{
  deserialize_one_field, field_by_id, set_field, to_field, to_struct, to_struct_auto,
}

abbrev pub has_field : ℕ → List Field → Bool
has_field n [] = false
has_field n (f ∷ fs) = f.id == n || has_field n fs

topics_loop :
    (fs : List Field) (token : Option Bytes)
    → has_field 2 fs ≡ true
    → to_struct fs ((1, slice token) ∷ (2, slices none) ∷ []) ≡ panicked
unfolding to_struct to_field deserialize_one_field field_by_id set_field
topics_loop [] token h = cc
topics_loop (f ∷ fs) token h = ground (arith, topics_loop fs token, topics_loop fs (some f.value))

-- Reading a filter command that holds a topic (field 2) always faults, whatever fields stand around
-- it.
pub filter_topics_faults :
    (fs : List Field)
    → has_field 2 fs ≡ true
    → to_struct_auto (record { id = 9; fields = fs }) ≡ panicked
unfolding to_struct_auto
filter_topics_faults fs h = rw (topics_loop fs none h)
