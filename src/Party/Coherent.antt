-- ===== src/Party/Coherent.antt =====
-- The pointers between players and parties agree, before and after every operation.
use asca_ci.Base.Counts.{count, one}
use asca_ci.Base.{
  update, ◌<◌, ℕ, ◌+◌, ◌≤◌, ◌≡◌, refl, true, false, List, Option, none, some, ◌==◌, arith,
  Bool-cases, inl, inr,
}
use asca_ci.Party.Counts.{update_self, update-other, clear_all_lem, uninvite_all_lem}
use asca_ci.Party.Shared.{Party}
use asca_ci.Party.{World, Events, is_party, uninvite_all, clear_all, disband}

-- How often a player has a seat in a party, which may have been deleted, and is invited to it.
abbrev pub seats : Option Party → ℕ → ℕ
seats none player = 0
seats (some p) player = one (p.leader == player) + count player p.members

abbrev pub guests : Option Party → ℕ → ℕ
guests none player = 0
guests (some p) player = count player p.invitees

abbrev pub here : Option ℕ → ℕ → ℕ
here o i = one (is_party o i)

-- A player's party is the one in which the player has a seat, and only one; a party's invited
-- players are those that hold its invitation, once each. No pointer leads to a deleted party.
pub record IsCoherent (w : World) : Type 0 where
  pub membership : (i player : ℕ) → seats (w.parties i) player ≡ here (w.party_of player) i
  pub invitation : (i player : ℕ) → guests (w.parties i) player ≡ count i (w.invitations player)
  pub once : (i player : ℕ) → count i (w.invitations player) ≤ 1

-- The players' pointers `f` and `g` differ from the world's in those to the party `i` only.
pub record IsAside (w : World) (i : ℕ) (f : ℕ → Option ℕ) (g : ℕ → List ℕ) : Type 0 where
  pub few : (q : ℕ) → count i (g q) ≤ 1
  pub other_seats : (q j : ℕ) → (i == j) ≡ false → here (f q) j ≡ here (w.party_of q) j
  pub other_guests : (q j : ℕ) → (i == j) ≡ false → count j (g q) ≡ count j (w.invitations q)

-- They agree with what the party `i` has become.
pub record IsLocal (w : World) (i : ℕ) (o : Option Party) (f : ℕ → Option ℕ) (g : ℕ → List ℕ)
    : Type 0 where
  pub seated : (q : ℕ) → seats o q ≡ here (f q) i
  pub invited : (q : ℕ) → guests o q ≡ count i (g q)
  pub aside : IsAside w i f g

pub IsLocal-IsCoherent :
    (w : World) (i : ℕ) (o : Option Party) (f : ℕ → Option ℕ) (g : ℕ → List ℕ)
    → IsCoherent w
    → IsLocal w i o f g
    → IsCoherent (record { parties = update w.parties i o; party_of = f; invitations = g })
IsLocal-IsCoherent w i o f g c l = record {
  membership = λ j q. elim (Bool-cases (i == j)) [
    | inl same ↦
        let e : i ≡ j = ground (arith, same) in
        rw (← e) (rw (update_self w.parties i o) (l.seated q))
    | inr other ↦
        rw (update-other w.parties i o j other, l.aside.other_seats q j other) (c.membership j q)
  ];
  invitation = λ j q. elim (Bool-cases (i == j)) [
    | inl same ↦
        let e : i ≡ j = ground (arith, same) in
        rw (← e) (rw (update_self w.parties i o) (l.invited q))
    | inr other ↦
        rw (update-other w.parties i o j other, l.aside.other_guests q j other) (c.invitation j q)
  ];
  once = λ j q. elim (Bool-cases (i == j)) [
    | inl same ↦ let e : i ≡ j = ground (arith, same) in rw (← e) (l.aside.few q)
    | inr other ↦ rw (l.aside.other_guests q j other) (c.once j q)
  ];
}

-- A player's party is one.
pub here_unique : (o : Option ℕ) (i j : ℕ) → (i == j) ≡ false → here o i ≡ 1 → here o j ≡ 0
here_unique none i j other h = refl
here_unique (some k) i j other h = ground (arith, other, h)

-- Disbanding clears the pointers of all that have a seat or an invitation.
pub disband-IsCoherent :
    (ev : Events) (w : World) (i : ℕ) (p : Party) (f : ℕ → Option ℕ) (g : ℕ → List ℕ)
    → ev.on_disband ≡ true
    → IsCoherent w
    → IsAside w i f g
    → ((q : ℕ) → here (f q) i ≤ seats (some p) q)
    → ((q j : ℕ) → (i == j) ≡ false → 0 < seats (some p) q → here (f q) j ≡ 0)
    → ((q : ℕ) → count i (g q) ≤ guests (some p) q)
    → IsCoherent (disband ev i p (record w { party_of = f; invitations = g }))
unfolding disband update
disband-IsCoherent ev w i p f g allowed c a covers apart invites = rw allowed (
    IsLocal-IsCoherent w i none (clear_all p.members (update f p.leader none))
      (uninvite_all i p.invitees g) c
      (record {
        seated = λ q. ground (arith, clear_all_lem p.members (update f p.leader none) q, covers q);
        invited = λ q. ground (arith, uninvite_all_lem i p.invitees g q i, invites q);
        aside = record {
          few = λ q. ground (arith, uninvite_all_lem i p.invitees g q i, a.few q);
          other_seats = λ q j other. ground (
            arith,
            clear_all_lem p.members (update f p.leader none) q,
            apart q j other,
            a.other_seats q j other,
          );
          other_guests = λ q j other.
              ground (arith, uninvite_all_lem i p.invitees g q j, other, a.other_guests q j other);
        };
      }))

-- The party `p` at the address `i`.
module _ (w : World) (i : ℕ) (p : Party) (c : IsCoherent w) (there : w.parties i ≡ some p) where
  pub seat : (q : ℕ) → one (p.leader == q) + count q p.members ≡ here (w.party_of q) i
  seat q = let e = c.membership i q in rw there at e

  pub guest : (q : ℕ) → count q p.invitees ≡ count i (w.invitations q)
  guest q = let e = c.invitation i q in rw there at e

  IsAside-self : IsAside w i w.party_of w.invitations
  IsAside-self = record {
    few = λ q. c.once i q;
    other_seats = λ q j other. refl;
    other_guests = λ q j other. refl;
  }

  -- A player's own pointer to the party is set or cleared.
  IsAside-update :
      (player : ℕ) (o : Option ℕ)
      → ((j : ℕ) → (i == j) ≡ false → here o j ≡ 0)
      → ((j : ℕ) → (i == j) ≡ false → here (w.party_of player) j ≡ 0)
      → IsAside w i (update w.party_of player o) w.invitations
  unfolding update
  IsAside-update player o new old = record {
    few = λ q. c.once i q;
    other_seats = λ q j other. ground (arith, new j other, old j other);
    other_guests = λ q j other. refl;
  }
