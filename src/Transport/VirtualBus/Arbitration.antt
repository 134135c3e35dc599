-- ===== src/Transport/VirtualBus/Arbitration.antt =====
-- Who wins the arbitration of VirtualMedium::start_transmission().
use canforge.Base.{
  ℕ, zero, suc, ◌≤◌, ◌<◌, ◌≡◌, refl, sym, ◌∙◌, arith, false, ltb, Option, none, some, Option-cases,
  ◌⊎◌, inl, inr, List, [], ◌∷◌, get_elem?,
}
use canforge.Base.{Bool-cases, ltb→lt, lt→ltb}
use canforge.Core.CanId.{arbitration_key}
use canforge.Core.Frame.{BasicFrame}
use canforge.Transport.VirtualBus.{VirtualBus}
use canforge.Transport.VirtualBus.Medium.{Bid, offer, better, arbitrate, contenders, count_offer}

-- Every offer of the participants has at least the key `k`.
abbrev pub Bounds : ℕ → List VirtualBus → Type 0
Bounds k ps =
    (j : ℕ) (p : VirtualBus) (f : BasicFrame)
    → get_elem? ps j ≡ some p
    → offer p ≡ some f
    → k ≤ arbitration_key f.id

-- The bid is the one of the participant at `index`: no other key is lower, and none before it
-- is as low.
pub record Leads (ps : List VirtualBus) (b : Bid) : Type 0 where
  pub index : ℕ
  pub at : get_elem? ps index ≡ some b.winner
  pub offers : offer b.winner ≡ some b.frame
  pub keyed : b.key ≡ arbitration_key b.frame.id
  pub least : Bounds b.key ps
  pub first :
      (j : ℕ) (p : VirtualBus) (f : BasicFrame)
      → j < index
      → get_elem? ps j ≡ some p
      → offer p ≡ some f
      → b.key < arbitration_key f.id

Outcome : Bid → List VirtualBus → Type 0
Outcome b0 ps =
    (b : Bid) × (arbitrate (some b0) ps ≡ some b)
    × (((b ≡ b0) × Bounds b0.key ps) ⊎ (Leads ps b × b.key < b0.key))

le→ltb : (a b : ℕ) → a ≤ b → ltb b a ≡ false
le→ltb a b h = ground arith

some-inj : {f g : BasicFrame} → (let o : Option BasicFrame = some f in o) ≡ some g → f ≡ g
some-inj {f} {g} e = cc e

Bounds-cons :
    (k : ℕ) (p : VirtualBus) (ps : List VirtualBus)
    → ((f : BasicFrame) → offer p ≡ some f → k ≤ arbitration_key f.id)
    → Bounds k ps
    → Bounds k (p ∷ ps)
Bounds-cons k p ps h b zero q f e o = h f (cc (e, o))
Bounds-cons k p ps h b (suc j) q f e o = b j q f e o

Leads-cons :
    (p : VirtualBus) (ps : List VirtualBus) (b : Bid)
    → ((f : BasicFrame) → offer p ≡ some f → b.key < arbitration_key f.id)
    → Leads ps b
    → Leads (p ∷ ps) b
Leads-cons p ps b h l = record {
  index = suc l.index;
  at = l.at;
  offers = l.offers;
  keyed = l.keyed;
  least = Bounds-cons b.key p ps (λ f o. omega (arith, h f o)) l.least;
  first = first_of;
}
  where
    first_of :
        (j : ℕ) (q : VirtualBus) (f : BasicFrame)
        → j < suc l.index
        → get_elem? (p ∷ ps) j ≡ some q
        → offer q ≡ some f
        → b.key < arbitration_key f.id
    first_of zero q f lt e o = h f (cc (e, o))
    first_of (suc j) q f lt e o = l.first j q f (omega arith) e o

abbrev bid_of : VirtualBus → BasicFrame → Bid
bid_of p f = record { winner = p; frame = f; key = arbitration_key f.id }

head-Leads :
    (p : VirtualBus) (ps : List VirtualBus) (f : BasicFrame)
    → offer p ≡ some f
    → Bounds (arbitration_key f.id) ps
    → Leads (p ∷ ps) (bid_of p f)
head-Leads p ps f o b = record {
  index = 0;
  at = refl;
  offers = o;
  keyed = refl;
  least =
      Bounds-cons (arbitration_key f.id) p ps
        (λ g og. let e = some-inj (sym o ∙ og) in rw (sym e) (omega arith)) b;
  first = λ j q g lt. absurd (omega arith);
}

-- The next participant has nothing to send, has a lower key, or has not.
Outcome-none :
    (b0 : Bid) (p : VirtualBus) (ps : List VirtualBus)
    → offer p ≡ none
    → Outcome b0 ps
    → Outcome b0 (p ∷ ps)
unfolding arbitrate better Outcome
Outcome-none b0 p ps o (b, e, inl (same, bound)) =
    (b, rw o e, inl (same, Bounds-cons b0.key p ps (λ f q. absurd (cc (o, q))) bound))
Outcome-none b0 p ps o (b, e, inr (l, lower)) =
    (b, rw o e, inr (Leads-cons p ps b (λ f q. absurd (cc (o, q))) l, lower))

Outcome-lower :
    (b0 : Bid) (p : VirtualBus) (ps : List VirtualBus) (f : BasicFrame)
    → offer p ≡ some f
    → arbitration_key f.id < b0.key
    → Outcome (bid_of p f) ps
    → Outcome b0 (p ∷ ps)
unfolding arbitrate better Outcome
Outcome-lower b0 p ps f o lt (b, e, inl (same, bound)) = (
  b,
  rw (o, lt→ltb (arbitration_key f.id) b0.key lt) e,
  inr (rw same (head-Leads p ps f o bound, lt)),
)
Outcome-lower b0 p ps f o lt (b, e, inr (l, lower)) = (
  b,
  rw (o, lt→ltb (arbitration_key f.id) b0.key lt) e,
  inr (Leads-cons p ps b (λ g q. let s = some-inj (sym o ∙ q) in rw (sym s) lower) l, omega arith),
)

Outcome-stays :
    (b0 : Bid) (p : VirtualBus) (ps : List VirtualBus) (f : BasicFrame)
    → offer p ≡ some f
    → b0.key ≤ arbitration_key f.id
    → Outcome b0 ps
    → Outcome b0 (p ∷ ps)
unfolding arbitrate better Outcome
Outcome-stays b0 p ps f o le (b, e, inl (same, bound)) = (
  b,
  rw (o, le→ltb b0.key (arbitration_key f.id) le) e,
  inl (same, Bounds-cons b0.key p ps (λ g q. let s = some-inj (sym o ∙ q) in rw (sym s) le) bound),
)
Outcome-stays b0 p ps f o le (b, e, inr (l, lower)) = (
  b,
  rw (o, le→ltb b0.key (arbitration_key f.id) le) e,
  inr (
    Leads-cons p ps b (λ g q. let s = some-inj (sym o ∙ q) in rw (sym s) (omega arith)) l,
    lower,
  ),
)

outcome : (b0 : Bid) (ps : List VirtualBus) → Outcome b0 ps
unfolding arbitrate Outcome
outcome b0 [] = (b0, refl, inl (refl, λ j p f e. absurd (cc e)))
outcome b0 (p ∷ ps) = elim (Option-cases (offer p)) [
  | inl o ↦ Outcome-none b0 p ps o (outcome b0 ps)
  | inr (f, o) ↦ elim (Bool-cases (ltb (arbitration_key f.id) b0.key)) [
    | inl t ↦
        Outcome-lower b0 p ps f o (ltb→lt (arbitration_key f.id) b0.key t) (outcome (bid_of p f) ps)
    | inr t ↦ Outcome-stays b0 p ps f o (ground arith) (outcome b0 ps)
  ]
]

-- The arbitration of a list without an offer has no winner; otherwise a participant leads it.
Decided : List VirtualBus → Type 0
Decided ps =
    ((arbitrate none ps ≡ none) × (contenders ps ≡ 0))
    ⊎ ((b : Bid) × (arbitrate none ps ≡ some b) × Leads ps b)

Decided-none :
    (p : VirtualBus) (ps : List VirtualBus) → offer p ≡ none → Decided ps → Decided (p ∷ ps)
unfolding arbitrate better contenders count_offer Decided
Decided-none p ps o (inl (e, h)) = inl (rw o e, rw o (omega (arith, h)))
Decided-none p ps o (inr (b, e, l)) =
    inr (b, rw o e, Leads-cons p ps b (λ f q. absurd (cc (o, q))) l)

Decided-some :
    (p : VirtualBus) (ps : List VirtualBus) (f : BasicFrame)
    → offer p ≡ some f
    → Outcome (bid_of p f) ps
    → Decided (p ∷ ps)
unfolding arbitrate better Decided Outcome
Decided-some p ps f o (b, e, inl (same, bound)) =
    inr (b, rw o e, rw same (head-Leads p ps f o bound))
Decided-some p ps f o (b, e, inr (l, lower)) =
    inr (b, rw o e, Leads-cons p ps b (λ g q. let s = some-inj (sym o ∙ q) in rw (sym s) lower) l)

-- Whatever the participants have queued: either nobody who is open has a frame queued and there
-- is no winner, or there is one that offers the head of its queue, no queue of an open participant
-- has a head with a lower arbitration key, and one with the same key attached later.
pub arbitrate-Leads :
    (ps : List VirtualBus)
    → ((arbitrate none ps ≡ none) × (contenders ps ≡ 0))
      ⊎ ((b : Bid) × (arbitrate none ps ≡ some b) × Leads ps b)
unfolding arbitrate contenders Decided
arbitrate-Leads [] = inl (refl, refl)
arbitrate-Leads (p ∷ ps) = elim (Option-cases (offer p)) [
  | inl o ↦ Decided-none p ps o (arbitrate-Leads ps)
  | inr (f, o) ↦ Decided-some p ps f o (outcome (bid_of p f) ps)
]
