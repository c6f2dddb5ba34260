-- ===== src/Archive/Cycle.antt =====
-- Archives in which references go round are parsed without end.
use imessage_for_me.Base.{ℕ, zero, suc, ◌≡◌, refl, false, ◌&&◌, some, Bytes, codes, equal}
use imessage_for_me.Apns.Payload.{out_of_fuel}
use imessage_for_me.Archive.{
  dict, uid, Entries, entry, Objects, get_elem?, parse_entries, parse_map, parse, has,
}

-- An object whose first entry is a reference, and what it refers to.
pub record FirstReference (objs : Objects) (n m : ℕ) : Type 0 where
  pub key : Bytes
  pub rest : Entries
  pub is_object : get_elem? objs n ≡ some (dict (entry key (uid m) rest))
  pub is_followed : equal key (codes "$class") ≡ false
  pub is_no_dictionary :
      (has (codes "NS.keys") (entry key (uid m) rest)
        && has (codes "NS.objects") (entry key (uid m) rest))
      ≡ false

module _ (C : ℕ → Type 0) (objs : Objects)
    (next : (n : ℕ) → C n → (m : ℕ) × C m × FirstReference objs n m) where
  -- Where each of some objects starts with a reference to one of them, so that the references go
  -- round, `Parse` of such an object comes to no end: no bound on its calls of itself is enough.
  pub parse_cycle : (fuel n : ℕ) → C n → parse fuel n objs ≡ out_of_fuel
  unfolding parse parse_map parse_entries
  parse_cycle zero n c = refl
  parse_cycle (suc fuel) n c =
      let (m, d, f) = next n c in
      rw f.is_object (rw f.is_no_dictionary (rw f.is_followed (rw (parse_cycle fuel m d) refl)))
