-- ===== src/Ids/Handles/Choice.antt =====
-- Which handle is the default after an update of the handles.
use imessage_for_me.Base.{
  ℕ, ◌≡◌, refl, ◌∙◌, Bool, true, false, not, List, [], ◌∷◌, Bytes, equal_iff, is_nil, arith,
  Bool-cases, inl, inr, ◌≤◌, ◌⊎◌,
}
use imessage_for_me.Uri.{ParsedUri, tel, is_empty, same_uri, order}
use imessage_for_me.Uri.Order.{sort}
use imessage_for_me.Uri.Order.Sorted.{
  contains, contains-sort, sort-InOrder, InOrder, AtLeast, same_uri_iff,
}
use imessage_for_me.Ids.Handles.{
  Handles, same_uris, first, reset_default, adopt_preferred, apply_preferred,
  update_handles_if_changed,
}

contains-first : (us : List ParsedUri) → is_nil us ≡ false → contains us (first us) ≡ true
unfolding contains
contains-first [] h = cc
contains-first (u ∷ us) h = ground (arith, same_uri_iff u u)

reset_default-available :
    (h : Handles) (c : Bool)
    → is_nil h.handles ≡ false
    → contains (reset_default (h, c)).0.handles (reset_default (h, c)).0.default_handle ≡ true
unfolding reset_default
reset_default-available h c full = ground (arith, contains-first h.handles full)

adopt_preferred-available :
    (s : Handles × Bool)
    → contains s.0.handles s.0.default_handle ≡ true
    → contains (adopt_preferred s).0.handles (adopt_preferred s).0.default_handle ≡ true
unfolding adopt_preferred
adopt_preferred-available (h, c) a = ground arith

apply_preferred-available :
    (s : Handles × Bool)
    → contains s.0.handles s.0.default_handle ≡ true
    → contains (apply_preferred s).0.handles (apply_preferred s).0.default_handle ≡ true
unfolding apply_preferred
apply_preferred-available (h, c) a = ground arith

contains_full : (us : List ParsedUri) (w : ParsedUri) → contains us w ≡ true → is_nil us ≡ false
unfolding contains
contains_full [] w h = cc
contains_full (u ∷ us) w h = refl

-- None of the three steps changes the handles.
handles-steps :
    (s : Handles × Bool)
    → (apply_preferred (adopt_preferred (reset_default s))).0.handles ≡ s.0.handles
unfolding apply_preferred adopt_preferred reset_default
handles-steps (h, c) = ground arith

handles-update :
    (h : Handles) (new : List ParsedUri) → (update_handles_if_changed h new).0.handles ≡ sort new
unfolding update_handles_if_changed
handles-update h new =
    handles-steps (record h { handles = sort new }, not (same_uris h.handles (sort new)))

-- After an update the handles are the fetched ones, none lost or made up, with no scheme in front
-- of one that sorts before it, and the default handle is one of them unless there is none.
pub update_handles_lem :
    (h : Handles) (new : List ParsedUri) (w : ParsedUri)
    → (contains (update_handles_if_changed h new).0.handles w ≡ contains new w)
      × InOrder (update_handles_if_changed h new).0.handles
      × ((is_nil new ≡ true)
          ⊎ (contains
                (update_handles_if_changed h new).0.handles
                (update_handles_if_changed h new).0.default_handle
              ≡ true))
update_handles_lem h new w = (
  rw (handles-update h new) (contains-sort new w),
  rw (handles-update h new) (sort-InOrder new),
  elim (Bool-cases (is_nil new)) [
    | inl none ↦ inl none
    | inr full ↦ inr (
        unfold update_handles_if_changed in
        apply_preferred-available _ (
          adopt_preferred-available _ (
            reset_default-available (record h { handles = sort new }) _
              (contains_full (sort new) (first new)
                (contains-sort new (first new) ∙ contains-first new full)))))
  ],
)

apply_preferred_lem :
    (s : Handles × Bool)
    → is_empty (apply_preferred s).0.preferred_handle ≡ false
    → contains (apply_preferred s).0.handles (apply_preferred s).0.preferred_handle ≡ true
    → (apply_preferred s).0.default_handle ≡ (apply_preferred s).0.preferred_handle
unfolding apply_preferred
apply_preferred_lem (h, c) full here =
    ground (arith, same_uri_iff h.default_handle h.preferred_handle)

-- After an update a preferred handle that is set and among the handles is the default handle.
pub preferred_is_default :
    (h : Handles) (new : List ParsedUri)
    → is_empty (update_handles_if_changed h new).0.preferred_handle ≡ false
    → contains
        (update_handles_if_changed h new).0.handles
        (update_handles_if_changed h new).0.preferred_handle
      ≡ true
    → (update_handles_if_changed h new).0.default_handle
      ≡ (update_handles_if_changed h new).0.preferred_handle
unfolding update_handles_if_changed
preferred_is_default h new = apply_preferred_lem (adopt_preferred (reset_default _))

order_zero : (s : Bytes) → order s ≤ 0 → s ≡ tel
unfolding order
order_zero s h = ground (arith, equal_iff s tel)

order-tel : (s : Bytes) → s ≡ tel → order s ≡ 0
unfolding order
order-tel s h = ground (arith, equal_iff s tel)

AtLeast-contains :
    (n : ℕ) (us : List ParsedUri) (w : ParsedUri)
    → AtLeast n us
    → contains us w ≡ true
    → n ≤ order w.scheme
unfolding contains
AtLeast-contains n [] w a h = cc
AtLeast-contains n (u ∷ us) w a h = elim (Bool-cases (same_uri u w)) [
  | inl e ↦ rw (← ((same_uri_iff u w).0 e)) a.0
  | inr e ↦ AtLeast-contains n us w a.1 (rw e at h)
]

-- In a list in order that holds a phone number, the first handle is one.
first-tel :
    (us : List ParsedUri) (w : ParsedUri)
    → InOrder us
    → contains us w ≡ true
    → w.scheme ≡ tel
    → (first us).scheme ≡ tel
unfolding contains
first-tel [] w o h t = cc
first-tel (u ∷ us) w o h t = elim (Bool-cases (same_uri u w)) [
  | inl e ↦ rw ((same_uri_iff u w).0 e) t
  | inr e ↦
      order_zero u.scheme
        (omega (arith, AtLeast-contains _ us w o.0 (rw e at h), order-tel w.scheme t))
]

adopt_preferred-tel :
    (s : Handles × Bool)
    → is_empty s.0.preferred_handle ≡ true
    → is_nil s.0.handles ≡ false
    → (first s.0.handles).scheme ≡ tel
    → contains s.0.handles s.0.default_handle ≡ true
    → ((adopt_preferred s).0.preferred_handle.scheme ≡ tel)
      × (contains (adopt_preferred s).0.handles (adopt_preferred s).0.preferred_handle ≡ true)
unfolding adopt_preferred
adopt_preferred-tel (h, c) unset full phone here = ground (
  arith,
  equal_iff (first h.handles).scheme tel,
  equal_iff h.default_handle.scheme tel,
  contains-first h.handles full,
)

reset_default_keeps :
    (s : Handles × Bool)
    → ((reset_default s).0.preferred_handle ≡ s.0.preferred_handle)
      × ((reset_default s).0.handles ≡ s.0.handles)
unfolding reset_default
reset_default_keeps (h, c) = ground arith

apply_preferred_keeps :
    (s : Handles × Bool)
    → ((apply_preferred s).0.preferred_handle ≡ s.0.preferred_handle)
      × ((apply_preferred s).0.handles ≡ s.0.handles)
unfolding apply_preferred
apply_preferred_keeps (h, c) = ground arith

tel-not_empty : (u : ParsedUri) → u.scheme ≡ tel → is_empty u ≡ false
unfolding is_empty
tel-not_empty u t = rw t

-- Where no handle was preferred and a phone number is among the fetched handles, a phone number
-- handle becomes both the preferred and the default handle.
pub phone_preferred :
    (h : Handles) (new : List ParsedUri) (w : ParsedUri)
    → is_empty h.preferred_handle ≡ true
    → contains new w ≡ true
    → w.scheme ≡ tel
    → ((update_handles_if_changed h new).0.preferred_handle.scheme ≡ tel)
      × ((update_handles_if_changed h new).0.default_handle
          ≡ (update_handles_if_changed h new).0.preferred_handle)
unfolding update_handles_if_changed
phone_preferred h new w unset here phone =
    let start : Handles × Bool =
      (record h { handles = sort new }, not (same_uris h.handles (sort new))) in
    let listed = contains-sort new w ∙ here in
    let full = contains_full (sort new) w listed in
    let kept = reset_default_keeps start in
    let (is_tel, held) =
      adopt_preferred-tel (reset_default start) (rw kept.0 unset) (rw kept.1 full)
        (rw kept.1 (first-tel (sort new) w (sort-InOrder new) listed phone))
        (reset_default-available (record h { handles = sort new }) _ full) in
    let last = apply_preferred_keeps (adopt_preferred (reset_default start)) in
    (
      rw last.0 is_tel,
      apply_preferred_lem (adopt_preferred (reset_default start))
          (rw last.0 (tel-not_empty _ is_tel)) (rw last.1 (rw last.0 held)),
    )
