-- ===== src/Ws/Rooms.antt =====
-- The two tables of rooms, that of a connection and that of the manager, after each change.
use nexus_trade_engine.Prelude.{
  String, ◌≡◌, subst, Option, none, some, false, ◌&&◌, ◌||◌, List, [], ◌∷◌, arith, if◌then◌else◌,
  ◌==◌, string_eq, contains, add, discard, contains-add, contains-discard, Dict, lookup, insert,
  erase, lookup-insert, lookup-erase, Option-cases, Bool-cases, inl, inr, NoTwice, add-NoTwice,
  discard-NoTwice,
}
use nexus_trade_engine.Ws.{
  Wire, ConnectionInfo, members_of, enter, or_erase, vacate, quit, rooms_of,
}

members-insert :
    (room r : String) (members : List String) (d : Dict String (List String))
    → members_of r (insert room members d) ≡ (if room == r then members else members_of r d)
members-insert room r members d = ground (arith, lookup-insert room r members d)

-- A room gains a member.
pub contains-enter :
    (cid room c r : String) (d : Dict String (List String))
    → contains (members_of r (enter cid room d)) c
      ≡ (((c == cid) && (r == room)) || contains (members_of r d) c)
unfolding enter
contains-enter cid room c r d = ground (
  arith,
  members-insert room r (add cid (members_of room d)) d,
  contains-add cid c (members_of room d),
  string_eq.same_iff room r,
  string_eq.same_iff r room,
)

-- A room loses a member.
pub contains-quit :
    (cid room c r : String) (d : Dict String (List String))
    → contains (members_of r (quit cid room d)) c
      ≡ (if (c == cid) && (r == room) then false else contains (members_of r d) c)
unfolding quit
contains-quit cid room c r d = ground (
  arith,
  members-insert room r (discard cid (members_of room d)) d,
  contains-discard cid c (members_of room d),
  string_eq.same_iff room r,
  string_eq.same_iff r room,
)

members-or_erase :
    (room r : String) (members : List String) (d : Dict String (List String))
    → members_of r (or_erase room members d) ≡ (if room == r then members else members_of r d)
unfolding or_erase
members-or_erase room r [] d = ground (arith, lookup-erase room r d)
members-or_erase room r (member ∷ members) d = members-insert room r (member ∷ members) d

-- A connection leaves its rooms.
pub contains-vacate :
    (cid c r : String) (joined : List String) (d : Dict String (List String))
    → contains (members_of r (vacate cid joined d)) c
      ≡ (if (c == cid) && contains joined r then false else contains (members_of r d) c)
unfolding vacate
contains-vacate cid c r [] d = ground arith
contains-vacate cid c r (room ∷ joined) d = elim (Option-cases (lookup room d)) [
  | inl e ↦
      rw (e, vacate)
        (ground (arith, e, contains-vacate cid c r joined d, string_eq.same_iff r room))
  | inr (members, e) ↦
      rw (e, vacate)
        (ground (
          arith,
          e,
          contains-vacate cid c r joined (or_erase room (discard cid members) d),
          members-or_erase room r (discard cid members) d,
          contains-discard cid c members,
          string_eq.same_iff room r,
          string_eq.same_iff r room,
        ))
]

-- No connection stands twice in a room.
abbrev pub AreSets : Dict String (List String) → Type 0
AreSets d = (r : String) → NoTwice (members_of r d)

insert-AreSets :
    (room : String) (members : List String) (d : Dict String (List String))
    → NoTwice members
    → AreSets d
    → AreSets (insert room members d)
insert-AreSets room members d once sets r =
    rw members-insert (elim (Bool-cases (room == r)) [ inl e ↦ rw e once | inr e ↦ rw e (sets r) ])

pub enter-AreSets :
    (cid room : String) (d : Dict String (List String)) → AreSets d → AreSets (enter cid room d)
unfolding enter
enter-AreSets cid room d sets =
    insert-AreSets room (add cid (members_of room d)) d
      (add-NoTwice cid (members_of room d) (sets room)) sets

pub quit-AreSets :
    (cid room : String) (d : Dict String (List String)) → AreSets d → AreSets (quit cid room d)
unfolding quit
quit-AreSets cid room d sets = elim (Option-cases (lookup room d)) [
  | inl e ↦ rw (e, quit) sets
  | inr (members, e) ↦
      rw (e, quit)
        (insert-AreSets room (discard cid members) d
          (discard-NoTwice cid members (
            subst (λ (o : Option (List String)). NoTwice (elim o [ none ↦ [] | some ms ↦ ms ])) e
              (sets room)))
          sets)
]

or_erase-AreSets :
    (room : String) (members : List String) (d : Dict String (List String))
    → NoTwice members
    → AreSets d
    → AreSets (or_erase room members d)
or_erase-AreSets room members d once sets r =
    rw members-or_erase
      (elim (Bool-cases (room == r)) [ inl e ↦ rw e once | inr e ↦ rw e (sets r) ])

pub vacate-AreSets :
    (cid : String) (joined : List String) (d : Dict String (List String))
    → AreSets d
    → AreSets (vacate cid joined d)
unfolding vacate
vacate-AreSets cid [] d sets = sets
vacate-AreSets cid (room ∷ joined) d sets = elim (Option-cases (lookup room d)) [
  | inl e ↦ rw (e, vacate) (vacate-AreSets cid joined d sets)
  | inr (members, e) ↦
      rw (e, vacate)
        (vacate-AreSets cid joined (or_erase room (discard cid members) d) (
          or_erase-AreSets room (discard cid members) d
            (discard-NoTwice cid members (
              subst (λ (o : Option (List String)). NoTwice (elim o [ none ↦ [] | some ms ↦ ms ])) e
                (sets room)))
            sets))
]

module _ (wire : Wire) where
  pub rooms-insert :
      (cid c : String) (info : ConnectionInfo wire) (d : Dict String (ConnectionInfo wire))
      → rooms_of wire (lookup c (insert cid info d))
        ≡ (if cid == c then info.rooms else rooms_of wire (lookup c d))
  rooms-insert cid c info d = ground (arith, lookup-insert cid c info d)

  pub rooms-erase :
      (cid c : String) (d : Dict String (ConnectionInfo wire))
      → rooms_of wire (lookup c (erase cid d))
        ≡ (if cid == c then [] else rooms_of wire (lookup c d))
  rooms-erase cid c d = ground (arith, lookup-erase cid c d)
